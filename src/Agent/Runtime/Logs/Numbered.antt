-- ===== src/Agent/Runtime/Logs/Numbered.antt =====
-- The entries of a log are numbered without a gap, from the last number on.
use ai_infra_console.Prelude.{
  ℕ, suc, ◌+◌, ◌*◌, ◌≤◌, Text, text_eq, text_eq_iff, ◌≡◌, ◌≢◌, refl, sym, ◌∙◌, Bool, true, false,
  ◌||◌, List, [], ◌∷◌, arith, length, take, length-take, exists, Bool-cases, inl, inr, ltb,
  if◌then◌else◌, subst,
}
use ai_infra_console.Db.Deployments.{DeploymentLog}
use ai_infra_console.Deployments.Runtime.{LogReport, is_logged, add_log, add_logs}
use ai_infra_console.Agent.Runtime.Logs.{
  LogCursor, fresh_cursor, is_skipped, entry, number_lines, trimmed, log_entries,
}

-- Entries numbered from the number after `n` on, each of a line that fits and is not empty.
abbrev pub IsNumbered : ℕ → List LogReport → Type 0
IsNumbered n [] = Unit
IsNumbered n (e ∷ es) =
    (e.sequence ≡ suc n) × (e.message ≢ []) × (length e.message ≤ 4_096) × IsNumbered (suc n) es

-- Lines as they are numbered from a cursor on.
abbrev pub Numbers : LogCursor → List LogReport × LogCursor → Type 0
Numbers cursor numbered =
    IsNumbered cursor.sequence numbered.0
    × (numbered.1.sequence ≡ cursor.sequence + length numbered.0)

-- The central service keeps an entry of a deployment for every number up to `m`.
abbrev pub HasEntries : ℕ → ℕ → List DeploymentLog → Type 0
HasEntries deployment m logs = (k : ℕ) → 1 ≤ k → k ≤ m → exists (is_logged deployment k) logs ≡ true

module _ (digest : Text → Text) (now : ℕ) where
  kept-fits :
      (line : Text) (fingerprints : List Text)
      → is_skipped digest now (take 4_096 line) fingerprints ≡ false
      → (take 4_096 line ≢ []) × (length (take 4_096 line) ≤ 4_096)
  unfolding is_skipped
  kept-fits line fingerprints h = (
    λ e. true≢false (
        sym ((text_eq_iff (take 4_096 line) []).1 e)
        ∙ or-eq_false (text_eq (take 4_096 line) []) _ h),
    omega (arith, length-take 4_096 line),
  )
    where
      or-eq_false : (a b : Bool) → (a || b) ≡ false → a ≡ false
      or-eq_false a b h = ground arith

      true≢false : true ≢ false
      true≢false e = cc

  number_lines-Numbers :
      (lines : List Text) (cursor : LogCursor)
      → Numbers cursor (number_lines digest now lines cursor)
  unfolding number_lines entry
  number_lines-Numbers [] cursor = (tt, omega arith)
  number_lines-Numbers (line ∷ lines) cursor =
      let clean = take 4_096 line in
      let next : LogCursor = record {
        sequence = suc cursor.sequence;
        fingerprints = digest clean ∷ cursor.fingerprints;
      } in
      let taken = number_lines digest now lines next in
      let branch : Bool → Type 0 = λ b. Numbers cursor (
        if b
        then number_lines digest now lines cursor
        else (entry digest now (suc cursor.sequence) clean ∷ taken.0, taken.1)) in
      elim (Bool-cases (is_skipped digest now clean cursor.fingerprints)) [
        | inl t ↦ subst branch (sym t) (number_lines-Numbers lines cursor)
        | inr f ↦
            let (present, fits) = kept-fits line cursor.fingerprints f in
            let (numbered, last) = number_lines-Numbers lines next in
            subst branch (sym f) ((refl, present, fits, numbered), last ∙ omega arith)
      ]

  -- The entries of a report continue the numbers of the cursor without a gap, are not empty and
  -- fit the column, and the next report continues after them.
  pub log_entries-Numbers :
      (max_lines : ℕ) (lines : List Text) (cursor : LogCursor)
      → Numbers cursor (log_entries digest now max_lines lines cursor)
  unfolding log_entries trimmed
  log_entries-Numbers max_lines lines cursor =
      let after = (number_lines digest now lines cursor).1 in
      let (numbered, last) = number_lines-Numbers lines cursor in
      (numbered, same (ltb (max_lines * 4) (length after.fingerprints)) after ∙ last)
    where
      same :
          (b : Bool) (after : LogCursor)
          → (if b then record after { fingerprints = [] } else after).sequence ≡ after.sequence
      same true after = refl
      same false after = refl

module _ (new_id : ℕ → ℕ → ℕ) (retention : ℕ) where
  add_log-known :
      (deployment : ℕ) (e : LogReport) (logs : List DeploymentLog)
      → exists (is_logged deployment e.sequence) logs ≡ true
      → add_log new_id retention deployment e logs ≡ (false, logs)
  unfolding add_log
  add_log-known deployment e logs h = rw h refl

  add_logs-known :
      (deployment m n : ℕ) (es : List LogReport) (logs : List DeploymentLog)
      → IsNumbered n es
      → n + length es ≤ m
      → HasEntries deployment m logs
      → add_logs new_id retention deployment es logs ≡ (false, logs)
  unfolding add_logs
  add_logs-known deployment m n [] logs numbered few kept = refl
  add_logs-known deployment m n (e ∷ es) logs (number, _, _, rest) few kept =
      let known : exists (is_logged deployment e.sequence) logs ≡ true =
        rw number (kept (suc n) (omega arith) (omega arith)) in
      rw
        (
          add_log-known deployment e logs known,
          add_logs-known deployment m (suc n) es logs rest (omega arith) kept,
        )
        refl

  -- An agent that starts again counts from one: while it has numbered no more lines of a
  -- deployment than the central service keeps entries for, none of them is stored.
  pub restarted-drops :
      (digest : Text → Text) (now max_lines m deployment : ℕ) (lines : List Text)
      (logs : List DeploymentLog)
      → HasEntries deployment m logs
      → length (log_entries digest now max_lines lines fresh_cursor).0 ≤ m
      → add_logs new_id retention deployment
          (log_entries digest now max_lines lines fresh_cursor).0
          logs
        ≡ (false, logs)
  unfolding fresh_cursor
  restarted-drops digest now max_lines m deployment lines logs kept few =
      add_logs-known deployment m 0 _ logs
        (log_entries-Numbers digest now max_lines lines fresh_cursor).0 (omega arith) kept
