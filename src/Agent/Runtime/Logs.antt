-- ===== src/Agent/Runtime/Logs.antt =====
-- `_log_entries`: the new lines of a container's log, numbered. `digest` is the hexadecimal SHA-256
-- of a line, and the lines are those of the decoded payload.
pub mod Numbered
use ai_infra_console.Prelude.{
  ℕ, suc, ◌*◌, Text, text, text_eq, Bool, true, false, ◌||◌, List, [], ◌∷◌, ltb, length, take,
  exists, if◌then◌else◌,
}
use ai_infra_console.Deployments.Runtime.{LogReport}

-- `_log_sequences[deployment_id]` and `_log_fingerprints[deployment_id]`
pub record LogCursor : Type 0 where
  pub sequence : ℕ
  pub fingerprints : List Text

-- What an agent has that saw no line yet.
unfoldable pub fresh_cursor : LogCursor
fresh_cursor = record { sequence = 0; fingerprints = [] }

module _ (digest : Text → Text) (now : ℕ) where
  -- `not clean or fingerprint in fingerprints`
  unfoldable pub is_skipped : Text → List Text → Bool
  unfolding text_eq
  is_skipped clean fingerprints = text_eq clean [] || exists (text_eq (digest clean)) fingerprints

  entry : ℕ → Text → LogReport
  unfolding text
  entry sequence clean = record {
    sequence = sequence;
    timestamp = now;
    stream = text "stdout";
    message = clean;
  }

  -- The loop over the lines: the entries, and the cursor after it.
  unfoldable pub number_lines : List Text → LogCursor → List LogReport × LogCursor
  unfolding is_skipped entry
  number_lines [] cursor = ([], cursor)
  number_lines (line ∷ lines) cursor =
      let clean = take 4_096 line in
      let skipped = number_lines lines cursor in
      let taken = number_lines lines (record {
        sequence = suc cursor.sequence;
        fingerprints = digest clean ∷ cursor.fingerprints;
      }) in
      if is_skipped clean cursor.fingerprints
      then skipped
      else (entry (suc cursor.sequence) clean ∷ taken.0, taken.1)

  -- The set of fingerprints is cleared when it is too large.
  unfoldable pub trimmed : ℕ → LogCursor → LogCursor
  trimmed max_lines cursor =
      if ltb (max_lines * 4) (length cursor.fingerprints)
      then record cursor { fingerprints = [] }
      else cursor

  unfoldable pub log_entries : ℕ → List Text → LogCursor → List LogReport × LogCursor
  unfolding number_lines trimmed
  log_entries max_lines lines cursor =
      let (entries, after) = number_lines lines cursor in (entries, trimmed max_lines after)
