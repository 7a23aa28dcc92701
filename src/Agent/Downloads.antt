-- ===== src/Agent/Downloads.antt =====
-- `DownloadProgress` of model_tasks.py, under its lock: the counter that the download threads add
-- to and the supervisor reports from. Times are microseconds; `rate` is `int(bytes / elapsed)` on
-- doubles, which is 0 for no bytes; `max(0, ...)` of a negative quotient is a subtraction that stops
-- at 0.
pub mod Counted
pub mod Supervisor
use ai_infra_console.Prelude.{
  ℕ, zero, ◌+◌, ◌-◌, min, Bool, Option, none, some, List, [], ◌∷◌, leb, if◌then◌else◌, Text,
}
use ai_infra_console.Json.{ℤ, pos, negsuc}
use ai_infra_console.ModelTasks.Downloads.{DownloadProgressRequest}

pub record ProgressSnapshot : Type 0 where
  pub downloaded_size : ℕ
  pub total_size : Option ℕ
  pub speed_bytes_per_second : Option ℕ

pub record DownloadExecutionResult : Type 0 where
  pub path : Text
  pub downloaded_size : ℕ
  pub total_size : Option ℕ

pub record DownloadProgress : Type 0 where
  pub downloaded_size : ℕ
  pub total_size : Option ℕ
  pub speed : Option ℕ
  pub last_bytes : ℕ
  pub last_time : ℕ

-- `DownloadProgress()`
unfoldable pub fresh_progress : ℕ → DownloadProgress
fresh_progress now = record {
  downloaded_size = 0;
  total_size = none;
  speed = none;
  last_bytes = 0;
  last_time = now;
}

unfoldable pub set_total : Option ℕ → DownloadProgress → DownloadProgress
set_total value progress = record progress { total_size = value }

-- `min(total, self._total_size)` where the total is known
abbrev pub cap : Option ℕ → ℕ → ℕ
cap none n = n
cap (some total) n = min n total

unfoldable pub finish : ℕ → DownloadProgress → DownloadProgress
finish total progress = record progress {
  downloaded_size = total;
  total_size = some total;
  speed = some 0;
}

unfoldable pub snapshot : DownloadProgress → ProgressSnapshot
snapshot progress = record {
  downloaded_size = progress.downloaded_size;
  total_size = progress.total_size;
  speed_bytes_per_second = progress.speed;
}

module _ (rate : ℕ → ℕ → ℕ) where
  counted : ℕ → ℕ → DownloadProgress → DownloadProgress
  counted total now progress =
      if leb 250_000 (now - progress.last_time)
      then record progress {
        downloaded_size = total;
        speed = some (rate (total - progress.last_bytes) (now - progress.last_time));
        last_bytes = total;
        last_time = now;
      }
      else record progress { downloaded_size = total }

  -- `add`, at a time
  unfoldable pub add : ℤ → ℕ → DownloadProgress → DownloadProgress
  unfolding counted
  add (pos zero) now progress = progress
  add (negsuc n) now progress = progress
  add (pos n) now progress =
      counted (cap progress.total_size (progress.downloaded_size + n)) now progress

  -- The bytes of several chunks, each with its time.
  abbrev pub adds : List (ℤ × ℕ) → DownloadProgress → DownloadProgress
  adds [] progress = progress
  adds ((value, now) ∷ rest) progress = adds rest (add value now progress)
