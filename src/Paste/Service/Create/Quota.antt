-- ===== src/Paste/Service/Create/Quota.antt =====
-- What an accepted paste leaves of the quota of its account.
use klappstuhl_me.Prelude.{
  ℕ, ◌+◌, ◌≤◌, ◌<◌, ◌≡◌, true, false, if◌then◌else◌, ltb, leb, length, arith, Bool-cases, inl, inr,
}
use klappstuhl_me.Account.{Account, is_admin}
use klappstuhl_me.Paste.Error.{quota_count, quota_bytes, Result, ok, err}
use klappstuhl_me.Paste.Store.{Db, owned, total_bytes}
use klappstuhl_me.Paste.Service.{PasteConfig, Env}
use klappstuhl_me.Paste.Service.Create.{usage, check_quota}

abbrev verdict : ℕ → ℕ → ℕ → ℕ → Result (Unit {0})
verdict limit max count sum =
    if leb limit count
    then err (quota_count limit)
    else if ltb max sum
    then err (quota_bytes max)
    else ok tt

verdict_within :
    (limit max count sum : ℕ) → verdict limit max count sum ≡ ok tt → (count < limit) × (sum ≤ max)
verdict_within limit max count sum h = elim (Bool-cases (leb limit count)) [
  | inl full ↦ cc (rw full at h)
  | inr room ↦ elim (Bool-cases (ltb max sum)) [
    | inl over ↦ cc (rw (room, over) at h)
    | inr fits ↦ (ground (arith, room), ground (arith, fits))
  ]
]

-- With a database that answers, the quota lets an account that is no admin add a paste only while
-- it has fewer than the limit, and only if what it stores with the new plaintext stays within the
-- total; an admin always may.
pub check_quota-within :
    (config : PasteConfig) (env : Env) (acc : Account) (incoming : ℕ) (d : Db)
    → env.up 0 ≡ true
    → (is_admin acc ≡ true → check_quota config env acc incoming d ≡ ok tt)
      × (is_admin acc ≡ false
          → check_quota config env acc incoming d ≡ ok tt
          → (length (owned acc.id d.pastes) < config.account_limit)
            × (total_bytes (owned acc.id d.pastes) + incoming ≤ config.account_max_total_bytes))
unfolding check_quota usage
check_quota-within config env acc incoming d up =
    (λ admin. rw (up, admin), λ common h. verdict_within _ _ _ _ (rw (up, common) at h))
