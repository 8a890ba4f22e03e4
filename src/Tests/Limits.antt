-- ===== src/Tests/Limits.antt =====
-- Examples on the rate limiter and the lockout.
use klappstuhl_me.Prelude.{
  ℕ, suc, ◌+◌, ◌*◌, ◌≤◌, ◌<◌, ◌≡◌, ◌↔◌, refl, true, false, Option, none, some, [], ◌∷◌, arith,
}
use klappstuhl_me.Cache.{unbounded}
use klappstuhl_me.RateLimit.{Quota, admitted, emission_interval}
use klappstuhl_me.RateLimit.Admission.{admitted_bound, last}
use klappstuhl_me.Lockout.{threshold, window, AttemptWindow, is_locked, register_all}
use klappstuhl_me.Lockout.Laws.{is_locked_iff}

-- Five requests in ten ticks.
abbrev quota : Quota
quota = record { rate = 5; per = 10 }

abbrev no_times : ℕ → Option ℕ
no_times k = none

admitted_bound_example :
    (admitted (unbounded ℕ) quota 1 (100 ∷ 100 ∷ 103 ∷ 120 ∷ []) no_times).0
        * emission_interval quota
      + 100
    ≤ last 100 (100 ∷ 103 ∷ 120 ∷ []) + quota.per
admitted_bound_example =
    admitted_bound (unbounded ℕ) quota 1 no_times 100 (100 ∷ 103 ∷ 120 ∷ []) (omega arith)
      (omega arith, (omega arith, (omega arith, tt)))

abbrev no_failures : ℕ → Option AttemptWindow
no_failures k = none

is_locked_iff_example :
    (300 < 10 + window
      → (is_locked
            (unbounded AttemptWindow)
            300
            1
            (register_all (unbounded AttemptWindow) 1 (10 ∷ 20 ∷ 30 ∷ []) no_failures)
          ≡ true)
        ↔ (threshold ≤ suc 2))
    × (10 + window ≤ 300
        → is_locked
            (unbounded AttemptWindow)
            300
            1
            (register_all (unbounded AttemptWindow) 1 (10 ∷ 20 ∷ 30 ∷ []) no_failures)
          ≡ false)
is_locked_iff_example =
    is_locked_iff (unbounded AttemptWindow) 1 10 (20 ∷ 30 ∷ []) 300 no_failures refl
      ((omega arith, omega arith), ((omega arith, omega arith), tt)) (omega arith) (omega arith)

abbrev locked_out : ℕ → Option AttemptWindow
locked_out k = some (record { count = 8; started = 0 })
