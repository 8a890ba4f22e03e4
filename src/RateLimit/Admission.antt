-- ===== src/RateLimit/Admission.antt =====
-- How many requests of src/platform/ratelimit.rs' `process` the limiter lets through.
use native.Mathlib.Decide.{dec_lt}
use native.Mathlib.Nat.{mul-le-mul_right}
use klappstuhl_me.Prelude.{
  ℕ, zero, suc, ◌+◌, ◌-◌, ◌*◌, ◌≤◌, ◌<◌, ◌≡◌, refl, ap, ◌∙◌, max, min, true, false, none, some,
  List, [], ◌∷◌, inl, inr, arith, or_else, replicate, Bool-cases, Option-cases,
}
use klappstuhl_me.Cache.{Cache}
use klappstuhl_me.RateLimit.{Quota, emission_interval, decide, admitted}

-- The times never fall, from `s` on.
abbrev IsAscending : ℕ → List ℕ → Type 0
IsAscending s [] = Unit {0}
IsAscending s (t ∷ ts) = (s ≤ t) × IsAscending t ts

abbrev pub last : ℕ → List ℕ → ℕ
last s [] = s
last s (t ∷ ts) = last t ts

last-ge : (s : ℕ) (ts : List ℕ) → IsAscending s ts → s ≤ last s ts
last-ge s [] h = omega arith
last-ge s (t ∷ ts) h = omega (arith, last-ge t ts h.1)

refused_late :
    (q : Quota) (tat now : ℕ)
    → (decide q tat now).info.ratelimited ≡ true
    → now < tat - (q.per - emission_interval q)
unfolding decide
refused_late q tat now h = ground arith

passed_early :
    (q : Quota) (tat now : ℕ)
    → (decide q tat now).info.ratelimited ≡ false
    → (tat ≤ now + (q.per - emission_interval q))
      × ((decide q tat now).new_tat ≡ max tat now + emission_interval q)
unfolding decide
passed_early q tat now h = (ground arith, refl)

lt_of_mul-lt : (i j k : ℕ) → i * k < j * k → i < j
lt_of_mul-lt i j k h = elim (dec_lt i j) [
  | yes p ↦ p
  | no p ↦ absurd (omega (arith, mul-le-mul_right {m = j} {n = i} k (omega arith)))
]

module _ {K : Type 0} (cache : Cache K ℕ) (q : Quota) (key : K) where
  open cache use {Table, get, insert, get-insert_self}

  -- One request of the run, for the time that is stored or taken for the key.
  admitted_refused :
      (time : ℕ) (t : Table) (ts : List ℕ)
      → (decide q (or_else (get key t) time) time).info.ratelimited ≡ true
      → admitted cache q key (time ∷ ts) t ≡ admitted cache q key ts t
  unfolding admitted
  admitted_refused time t ts h = rw h

  admitted_passed :
      (time : ℕ) (t : Table) (ts : List ℕ)
      → (decide q (or_else (get key t) time) time).info.ratelimited ≡ false
      → (admitted cache q key (time ∷ ts) t).0
        ≡ (admitted cache q key ts
            (insert key (decide q (or_else (get key t) time) time).new_tat t)).0
          + 1
  unfolding admitted
  admitted_passed time t ts h = rw h

  -- Between the first and the last of the times the admitted requests fit the quota, one emission
  -- interval each, with a burst of at most `per` ticks.
  admitted_from :
      (now tat : ℕ) (t : Table) (ts : List ℕ)
      → emission_interval q ≤ q.per
      → IsAscending now ts
      → get key t ≡ some tat
      → (admitted cache q key ts t).0 * emission_interval q + min (max tat now) (now + q.per)
        ≤ last now ts + q.per
  admitted_from now tat t [] small asc e = unfold admitted in omega arith
  admitted_from now tat t (time ∷ ts) small asc e =
      elim (Bool-cases (decide q (or_else (get key t) time) time).info.ratelimited) [
        | inl refused ↦
            rw (admitted_refused time t ts refused)
              (omega (arith, admitted_from time tat t ts small asc.1 e))
        | inr passed ↦
            let T = emission_interval q in
            let later = max tat time + T in
            let (early, next) = passed_early q tat time (rw e at passed) in
            rw (admitted_passed time t ts passed, e)
              (rw next (
                omega (
                  arith,
                  admitted_from time later (insert key later t) ts small asc.1
                      (get-insert_self key later t),
                )))
      ]

  -- A run of requests for one key at times that never fall, whatever is stored for the key, where
  -- the emission interval is at most the period: the admitted ones, one emission interval each,
  -- fit into the time from the first to the last plus the period.
  pub admitted_bound :
      (t : Table) (first : ℕ) (ts : List ℕ)
      → emission_interval q ≤ q.per
      → IsAscending first ts
      → (admitted cache q key (first ∷ ts) t).0 * emission_interval q + first
        ≤ last first ts + q.per
  admitted_bound t first ts small asc = elim (Option-cases (get key t)) [
    | inr (tat, e) ↦
        omega (arith, admitted_from first tat t (first ∷ ts) small (omega arith, asc) e)
    | inl e ↦ fresh e
  ]
    where
      fresh :
          get key t ≡ none
          → (admitted cache q key (first ∷ ts) t).0 * emission_interval q + first
            ≤ last first ts + q.per
      fresh e =
          let T = emission_interval q in
          elim (Bool-cases (decide q first first).info.ratelimited) [
            | inl refused ↦ absurd (omega (arith, refused_late q first first refused))
            | inr passed ↦
                let (_, next) = passed_early q first first passed in
                rw (admitted_passed first t ts (rw e passed), e)
                  (rw next (
                    omega (
                      arith,
                      admitted_from first (max first first + T) (insert key (max first first + T) t)
                          ts small asc (get-insert_self key (max first first + T) t),
                    )))
          ]

  module _ (some_rate : 0 < q.rate) (positive : 0 < emission_interval q)
      (divides : q.rate * emission_interval q ≡ q.per) where
    -- After `used` admissions at one instant, out of a quota of `rate`.
    burst_from :
        (m now used : ℕ) (t : Table)
        → used ≤ q.rate
        → get key t ≡ some (now + used * emission_interval q)
        → (admitted cache q key (replicate m now) t).0 ≡ min m (q.rate - used)
    burst_from zero now used t h e = unfold admitted in omega arith
    burst_from (suc m) now used t h e =
        let T = emission_interval q in
        let tat = now + used * T in
        elim (Bool-cases (decide q (or_else (get key t) now) now).info.ratelimited) [
          | inl refused ↦ rw (admitted_refused now t (replicate m now) refused) (
              omega (
                arith,
                burst_from m now used t h e,
                lt_of_mul-lt q.rate (used + 1) T,
                refused_late q tat now (rw e at refused),
              ))
          | inr passed ↦
              let (early, next) = passed_early q tat now (rw e at passed) in
              let room : used < q.rate =
                lt_of_mul-lt used q.rate T
                  (omega (arith, mul-le-mul_right {m = 1} {n = q.rate} T some_rate)) in
              rw (admitted_passed now t (replicate m now) passed, e)
                (rw next (
                  omega (
                    arith,
                    burst_from m now (used + 1) (insert key (max tat now + T) t) (omega arith)
                        (get-insert_self key _ t ∙ ap some (omega arith)),
                  )))
        ]

    -- Where the rate divides the period and both are positive, a key that is not stored has its
    -- whole quota at one instant, and no more.
    pub fresh_burst :
        (m now : ℕ) (t : Table)
        → get key t ≡ none
        → (admitted cache q key (replicate m now) t).0 ≡ min m q.rate
    fresh_burst zero now t e = unfold admitted in omega arith
    fresh_burst (suc m) now t e =
        let T = emission_interval q in
        elim (Bool-cases (decide q (or_else (get key t) now) now).info.ratelimited) [
          | inl refused ↦ absurd (omega (arith, refused_late q now now (rw e at refused)))
          | inr passed ↦
              let (_, next) = passed_early q now now (rw e at passed) in
              rw (admitted_passed now t (replicate m now) passed, e)
                (rw next (
                  omega (
                    arith,
                    burst_from m now 1 (insert key (max now now + T) t) some_rate
                        (get-insert_self key _ t ∙ ap some (omega arith)),
                  )))
        ]
