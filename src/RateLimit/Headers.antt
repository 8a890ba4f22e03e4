-- ===== src/RateLimit/Headers.antt =====
-- What src/platform/ratelimit.rs tells the client: `retry_after`, and what a refusal changes.
use klappstuhl_me.Prelude.{
  ℕ, ◌+◌, ◌-◌, ◌≤◌, ◌<◌, ◌≡◌, refl, ◌≢◌, ◌⊎◌, inl, inr, true, false, none, some, arith, or_else,
  Bool-cases,
}
use klappstuhl_me.Cache.{Cache}
use klappstuhl_me.RateLimit.{Quota, emission_interval, decide, process}

-- How long the key must wait, by the stored time, before a request is let through.
abbrev wait : Quota → ℕ → ℕ → ℕ
wait q tat now = tat - (q.per - emission_interval q) - now

module _ (q : Quota) (tat now : ℕ) (small : emission_interval q ≤ q.per) where
  -- The wait is exact: one tick earlier is refused, and then it is let through.
  pub wait_exact :
      (d : ℕ)
      → ((decide q tat (now + d)).info.ratelimited ≡ true → d < wait q tat now)
        × (d < wait q tat now → (decide q tat (now + d)).info.ratelimited ≡ true)
  unfolding decide
  wait_exact d = (λ h. ground arith, λ h. ground arith)

  -- Where the emission interval is at most the period, a refusal names a time that is one emission
  -- interval later than the first moment at which the same key is let through, though it is sure
  -- to be let through then.
  pub retry_after_refused :
      (decide q tat now).info.ratelimited ≡ true
      → ((decide q tat now).info.retry_after ≡ wait q tat now + emission_interval q)
        × ((decide q tat (now + wait q tat now)).info.ratelimited ≡ false)
        × ((d : ℕ) → d < wait q tat now → (decide q tat (now + d)).info.ratelimited ≡ true)
        × ((decide q tat (decide q tat now).info.reset_time).info.ratelimited ≡ false)
  unfolding decide
  retry_after_refused h =
      (ground arith, ground arith, λ d early. (wait_exact d).1 early, ground arith)

  -- An admission that leaves nothing names exactly the first moment of the next one.
  pub retry_after_passed :
      (decide q tat now).info.ratelimited ≡ false
      → (decide q tat now).info.remaining ≡ 0
      → q.per ≤ now
      → (decide q tat now).info.retry_after ≡ wait q (decide q tat now).new_tat now
  unfolding decide
  retry_after_passed h k late = rw k (ground arith)

module _ {K : Type 0} (cache : Cache K ℕ) (q : Quota) where
  open cache use {Table, get, insert, get-insert_other}

  -- A request of one key leaves what is stored for another, or evicts it.
  pub process_other :
      (key other : K) (now : ℕ) (t : Table)
      → key ≢ other
      → (get other (process cache q (some key) now t).0 ≡ get other t)
        ⊎ (get other (process cache q (some key) now t).0 ≡ none)
  unfolding process
  process_other key other now t h =
      let d = decide q (or_else (get key t) now) now in
      elim (Bool-cases d.info.ratelimited) [
        | inl refused ↦ rw refused (inl refl)
        | inr passed ↦ rw passed (get-insert_other key other d.new_tat t h)
      ]
