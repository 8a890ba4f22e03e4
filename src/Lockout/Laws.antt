-- ===== src/Lockout/Laws.antt =====
-- When an address is locked out, and for how long.
use klappstuhl_me.Prelude.{
  ℕ, suc, ◌+◌, ◌-◌, ◌≤◌, ◌<◌, ◌≡◌, ◌≢◌, ap, ◌∙◌, min, true, false, none, some, List, [], ◌∷◌,
  length, All, arith, lt→ltb, inl, inr, ◌↔◌,
}
use klappstuhl_me.Cache.{Cache}
use klappstuhl_me.Lockout.{
  threshold, window, max_u32, AttemptWindow, next_window, locks, register_failure, is_locked,
  register_all,
}

-- A time in the window that started at `started`.
abbrev InWindow : ℕ → ℕ → Type 0
InWindow started now = (started ≤ now) × (now < started + window)

locks_iff :
    (now : ℕ) (w : AttemptWindow)
    → (locks now (some w) ≡ true) ↔ ((now - w.started < window) × (threshold ≤ w.count))
locks_iff now w = ground arith

locks_over : (now : ℕ) (w : AttemptWindow) → w.started + window ≤ now → locks now (some w) ≡ false
locks_over now w h = ground arith

next_window_live :
    (now : ℕ) (w : AttemptWindow)
    → InWindow w.started now
    → next_window now (some w) ≡ record { count = min (w.count + 1) max_u32; started = w.started }
next_window_live now w (h, k) = rw (lt→ltb (now - w.started) window (omega (arith, h, k)))

module _ {K : Type 0} (cache : Cache K AttemptWindow) (ip : K) where
  register_failure_get :
      (now : ℕ) (t : cache.Table)
      → cache.get ip (register_failure cache now ip t) ≡ some (next_window now (cache.get ip t))
  unfolding register_failure
  register_failure_get now t = cache.get-insert_self ip _ t

  register_all_get :
      (w : AttemptWindow) (times : List ℕ) (t : cache.Table)
      → All (InWindow w.started) times
      → cache.get ip t ≡ some w
      → w.count + length times ≤ max_u32
      → cache.get ip (register_all cache ip times t)
        ≡ some (record { count = w.count + length times; started = w.started })
  unfolding register_all
  register_all_get w [] t h e small = e ∙ ap some (same w)
    where
      same : (w : AttemptWindow) → w ≡ record { count = w.count + 0; started = w.started }
      same w = ap (λ n. record { count = n; started = w.started }) (omega arith)
  register_all_get w (now ∷ times) t h e small =
      register_all_get (record { count = w.count + 1; started = w.started }) times
        (register_failure cache now ip t) h.1
        (register_failure_get now t
          ∙ ap (λ o. some (next_window now o)) e
          ∙ ap some (next_window_live now w h.0)
          ∙ ap (λ n. some (record { count = n; started = w.started })) (omega (arith, small)))
        (omega (arith, small))
      ∙ ap (λ n. some (record { count = n; started = w.started })) (omega arith)

  -- An address without a window, after failures, no more than a u32 counts, that all fall within
  -- ten minutes of the first: it is locked, at any time of that window, exactly if they were eight
  -- or more, and never from ten minutes after the first on.
  pub is_locked_iff :
      (first : ℕ) (times : List ℕ) (now : ℕ) (t : cache.Table)
      → cache.get ip t ≡ none
      → All (InWindow first) times
      → suc (length times) ≤ max_u32
      → first ≤ now
      → (now < first + window
          → (is_locked cache now ip (register_all cache ip (first ∷ times) t) ≡ true)
            ↔ (threshold ≤ suc (length times)))
        × (first + window ≤ now
            → is_locked cache now ip (register_all cache ip (first ∷ times) t) ≡ false)
  unfolding is_locked
  is_locked_iff first times now t unknown within small after =
      let w : AttemptWindow = record { count = suc (length times); started = first } in
      let e : cache.get ip (register_all cache ip (first ∷ times) t) ≡ some w =
        unfold register_all in
        (register_all_get (record { count = 1; started = first }) times
            (register_failure cache first ip t) within
            (register_failure_get first t ∙ ap (λ o. some (next_window first o)) unknown)
            (omega (arith, small))
          ∙ ap (λ n. some (record { count = n; started = first })) (omega arith)) in
      (
        λ live.
            let (there, back) = locks_iff now w in
            let still : now - first < window = omega (arith, live, after) in
            rw e (λ h. (there h).1, λ many. back (still, many)),
        λ over. rw e (locks_over now w over),
      )

  -- A failure of one address never locks another.
  pub is_locked_other :
      (j : K) (now later : ℕ) (t : cache.Table)
      → ip ≢ j
      → is_locked cache later j (register_failure cache now ip t) ≡ true
      → is_locked cache later j t ≡ true
  unfolding is_locked register_failure
  is_locked_other j now later t other h =
      elim (cache.get-insert_other ip j (next_window now (cache.get ip t)) t other) [
        | inl kept ↦ rw kept at h
        | inr evicted ↦ cc (rw evicted at h)
      ]
