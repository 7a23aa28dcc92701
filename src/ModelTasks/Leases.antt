-- ===== src/ModelTasks/Leases.antt =====
-- Leases: `_digest_lease` and `_verify_lease`. A lease is the digest of a random token and an
-- instant at which it lapses. `hashlib.sha256` is the parameter `digest`.
use ai_infra_console.Prelude.{
  ℕ, Text, text_eq, Bool, false, Option, none, some, ltb, leb, Result, guard, ◌>>◌,
}
use ai_infra_console.ModelTasks.Errors.{TaskError, invalid_task_lease, expired_task_lease}

-- `lease_expires_at >= now` in SQL, where a comparison with NULL does not hold
abbrev pub unexpired : Option ℕ → ℕ → Bool
unexpired none now = false
unexpired (some expiry) now = leb now expiry

-- `lease_expires_at < now`
abbrev pub lapsed : Option ℕ → ℕ → Bool
lapsed none now = false
lapsed (some expiry) now = ltb expiry now

abbrev pub matches_digest : Option Text → Text → Bool
matches_digest none digested = false
matches_digest (some stored) digested = text_eq stored digested

-- `hash` and `expiry` are the task's; `digested` is the digest of the token in the report
unfoldable pub verify_lease : Option Text → Option ℕ → Text → ℕ → Result TaskError (Unit {0})
verify_lease hash expiry digested now = do
  guard (matches_digest hash digested) invalid_task_lease
  guard (unexpired expiry now) expired_task_lease
