-- ===== src/Agent/Downloads/Counted.antt =====
-- What the counter shows after the chunks of a download, and that the central service takes it.
use ai_infra_console.Prelude.{
  ℕ, zero, suc, ◌+◌, ◌-◌, ◌<◌, Text, ◌≡◌, refl, ◌∙◌, ap, true, false, Option, none, some, List, [],
  ◌∷◌, leb, ltb, ok, err, arith, Bool-cases, inl, inr,
}
use ai_infra_console.Json.{ℤ, pos, negsuc}
use ai_infra_console.Db.{seconds}
use ai_infra_console.Db.Tasks.{ModelDownloadTask}
use ai_infra_console.ModelTasks.Errors.{download_progress_regressed}
use ai_infra_console.ModelTasks.Leases.{verify_lease, matches_digest}
use ai_infra_console.ModelTasks.Downloads.{DownloadProgressRequest, progress_task, is_claimed, fits}
use ai_infra_console.Agent.Downloads.{
  ProgressSnapshot, DownloadProgress, cap, add, adds, counted, snapshot, fresh_progress,
}

abbrev pub bytes : ℤ → ℕ
bytes (pos n) = n
bytes (negsuc n) = 0

-- The bytes that chunks bring: those of a positive size.
abbrev pub received : List (ℤ × ℕ) → ℕ
received [] = 0
received ((value, now) ∷ rest) = bytes value + received rest

-- What a supervisor sends for a snapshot.
abbrev pub as_request : Text → ProgressSnapshot → DownloadProgressRequest
as_request token s = record {
  lease_token = token;
  downloaded_size = s.downloaded_size;
  total_size = s.total_size;
  speed_bytes_per_second = s.speed_bytes_per_second;
}

cap-fits : (total : Option ℕ) (n : ℕ) → fits (cap total n) total ≡ true
cap-fits none n = refl
cap-fits (some total) n = ground arith

cap-cap : (total : Option ℕ) (n m : ℕ) → cap total (cap total n + m) ≡ cap total (n + m)
cap-cap none n m = refl
cap-cap (some total) n m = omega arith

cap_fitting : (total : Option ℕ) (n : ℕ) → fits n total ≡ true → n ≡ cap total (n + 0)
cap_fitting none n h = omega arith
cap_fitting (some total) n h = ground arith

-- The row of a task after a report.
abbrev pub reported : ℕ → ℕ → DownloadProgressRequest → ModelDownloadTask → ModelDownloadTask
reported lease_seconds now report t = record t {
  downloaded_size = report.downloaded_size;
  total_size = report.total_size;
  speed_bytes_per_second = report.speed_bytes_per_second;
  last_progress_at = some now;
  lease_expires_at = some (now + seconds lease_seconds);
}

module _ (rate : ℕ → ℕ → ℕ) where
  add-size :
      (value : ℤ) (now : ℕ) (p : DownloadProgress)
      → fits p.downloaded_size p.total_size ≡ true
      → ((add rate value now p).downloaded_size
          ≡ cap p.total_size (p.downloaded_size + bytes value))
        × ((add rate value now p).total_size ≡ p.total_size)
  unfolding add counted
  add-size (pos zero) now p h = (cap_fitting p.total_size p.downloaded_size h, refl)
  add-size (negsuc n) now p h = (cap_fitting p.total_size p.downloaded_size h, refl)
  add-size (pos (suc n)) now p h = elim (Bool-cases (leb 250_000 (now - p.last_time))) [
    | inl t ↦ rw t (refl, refl)
    | inr f ↦ rw f (refl, refl)
  ]

  -- The counter after any chunks is what was counted before and the bytes received, up to the
  -- total when it is known.
  pub adds-size :
      (chunks : List (ℤ × ℕ)) (p : DownloadProgress)
      → fits p.downloaded_size p.total_size ≡ true
      → ((adds rate chunks p).downloaded_size
          ≡ cap p.total_size (p.downloaded_size + received chunks))
        × ((adds rate chunks p).total_size ≡ p.total_size)
  adds-size [] p h = (cap_fitting p.total_size p.downloaded_size h, refl)
  adds-size ((value, now) ∷ rest) p h =
      let (size, total) = add-size value now p h in
      let next = add rate value now p in
      let kept : fits next.downloaded_size next.total_size ≡ true =
        rw (size, total) (cap-fits p.total_size (p.downloaded_size + bytes value)) in
      let (size', total') = adds-size rest next kept in
      let grown : (adds rate rest next).downloaded_size
          ≡ cap p.total_size (p.downloaded_size + (bytes value + received rest)) =
        size'
        ∙ ap (λ t. cap t (next.downloaded_size + received rest)) total
        ∙ ap (λ n. cap p.total_size (n + received rest)) size
        ∙ cap-cap p.total_size (p.downloaded_size + bytes value) (received rest)
        ∙ ap (cap p.total_size) (omega arith) in
      (grown, total' ∙ total)

  pub adds-fits :
      (chunks : List (ℤ × ℕ)) (p : DownloadProgress)
      → fits p.downloaded_size p.total_size ≡ true
      → fits (adds rate chunks p).downloaded_size (adds rate chunks p).total_size ≡ true
  adds-fits chunks p h =
      let (size, total) = adds-size chunks p h in
      rw (size, total) (cap-fits p.total_size (p.downloaded_size + received chunks))

  cap-grows : (total : Option ℕ) (n m : ℕ) → fits n total ≡ true → ltb (cap total (n + m)) n ≡ false
  cap-grows none n m h = ground arith
  cap-grows (some total) n m h = ground arith

  adds-grow :
      (chunks : List (ℤ × ℕ)) (p : DownloadProgress)
      → fits p.downloaded_size p.total_size ≡ true
      → ltb (adds rate chunks p).downloaded_size p.downloaded_size ≡ false
  adds-grow chunks p h =
      rw ((adds-size chunks p h).0) (cap-grows p.total_size p.downloaded_size (received chunks) h)

  progress_task-taken :
      (digest : Text → Text) (lease_seconds now : ℕ) (report : DownloadProgressRequest)
      (t t' : ModelDownloadTask)
      → progress_task digest lease_seconds report now t ≡ ok t'
      → (is_claimed t'.status ≡ true)
        × (t'.downloaded_size ≡ report.downloaded_size)
        × (matches_digest t'.lease_token_hash (digest report.lease_token) ≡ true)
        × (t'.lease_expires_at ≡ some (now + seconds lease_seconds))
  unfolding progress_task verify_lease
  progress_task-taken digest lease_seconds now report t t' h = ground arith

  -- After the central service took a report from the counter, it takes the next one, whatever
  -- chunks came in between, when it comes before the lease that the first one gave lapses.
  pub snapshot-IsAccepted :
      (digest : Text → Text) (lease_seconds : ℕ) (token : Text) (before now : ℕ)
      (chunks : List (ℤ × ℕ)) (p : DownloadProgress) (t t' : ModelDownloadTask)
      → fits p.downloaded_size p.total_size ≡ true
      → progress_task digest lease_seconds (as_request token (snapshot p)) before t ≡ ok t'
      → leb now (before + seconds lease_seconds) ≡ true
      → (t'' : ModelDownloadTask) × (progress_task digest lease_seconds
            (as_request token (snapshot (adds rate chunks p)))
            now
            t'
          ≡ ok t'')
        × (t''.downloaded_size ≡ cap p.total_size (p.downloaded_size + received chunks))
  unfolding progress_task snapshot verify_lease
  snapshot-IsAccepted digest lease_seconds token before now chunks p t t' h taken live =
      let (claimed, size, hash, expiry) =
        progress_task-taken digest lease_seconds before (as_request token (snapshot p)) t t'
          taken in
      let grow : ltb (adds rate chunks p).downloaded_size t'.downloaded_size ≡ false =
        rw size (adds-grow chunks p h) in
      (
        reported lease_seconds now (as_request token (snapshot (adds rate chunks p))) t',
        rw (claimed, hash, expiry, live, grow, adds-fits chunks p h) refl,
        (adds-size chunks p h).0,
      )

  -- The counter of a new attempt starts at nothing, while the task keeps the size of the attempt
  -- before: every report below that size is refused.
  pub fresh-IsRefused :
      (digest : Text → Text) (lease_seconds : ℕ) (token : Text) (start now : ℕ)
      (chunks : List (ℤ × ℕ)) (t : ModelDownloadTask)
      → is_claimed t.status ≡ true
      → verify_lease t.lease_token_hash t.lease_expires_at (digest token) now ≡ ok tt
      → received chunks < t.downloaded_size
      → progress_task digest lease_seconds
          (as_request token (snapshot (adds rate chunks (fresh_progress start))))
          now
          t
        ≡ err download_progress_regressed
  unfolding progress_task snapshot fresh_progress
  fresh-IsRefused digest lease_seconds token start now chunks t claimed lease few =
      let size : (adds rate chunks (fresh_progress start)).downloaded_size ≡ received chunks =
        (adds-size chunks (fresh_progress start) refl).0 ∙ omega arith in
      let less : ltb (received chunks) t.downloaded_size ≡ true = ground arith in
      rw (claimed, lease, size, less) refl
