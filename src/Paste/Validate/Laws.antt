-- ===== src/Paste/Validate/Laws.antt =====
-- What the validation helpers let through.
use klappstuhl_me.Prelude.{
  ℕ, zero, suc, ◌+◌, ◌*◌, ◌≤◌, ◌<◌, min, ◌≡◌, refl, Bool, true, false, Option, none, some, arith,
  length, some_inj, Option-cases, inl, inr, ltb, Bool-cases, List, [], ◌∷◌,
}
use klappstuhl_me.Prelude.Int.{ℤ, pos, negsuc, positive, at_least_one}
use klappstuhl_me.Text.{Text, trim, is_empty}
use klappstuhl_me.Paste.External.{External}
use klappstuhl_me.Paste.Error.{ok}
use klappstuhl_me.Paste.Validate.{
  day_secs, max_ttl_secs, max_title_len, requested_secs, anonymous_cap, lifetime, after,
  resolve_expiry, normalize_title, check_for_secrets, critical_rules, secrets_verdict,
}

at_least_one_pos : (z : ℤ) → 0 < at_least_one z
at_least_one_pos (pos zero) = omega arith
at_least_one_pos (pos (suc n)) = omega arith
at_least_one_pos (negsuc n) = omega arith

positive_pos : (z : ℤ) {n : ℕ} → positive z ≡ some n → 0 < n
positive_pos (pos zero) h = cc
positive_pos (pos (suc n)) h = ground arith
positive_pos (negsuc n) h = cc

requested_pos : (e : Option ℤ) {n : ℕ} → requested_secs e ≡ some n → 0 < n
requested_pos none h = cc
requested_pos (some z) h = positive_pos z h

lifetime_pos :
    (o c : Option ℕ) {n : ℕ}
    → ((m : ℕ) → o ≡ some m → 0 < m)
    → ((m : ℕ) → c ≡ some m → 0 < m)
    → lifetime o c ≡ some n
    → 0 < n
lifetime_pos (some m) (some k) p q h = omega (arith, p m refl, q k refl, some_inj h)
lifetime_pos (some m) none p q h = omega (arith, p m refl, some_inj h)
lifetime_pos none (some k) p q h = omega (arith, q k refl, some_inj h)
lifetime_pos none none p q h = cc

cap_pos : (a : Bool) (z : ℤ) {n : ℕ} → anonymous_cap a z ≡ some n → 0 < n
cap_pos true z h = omega (arith, at_least_one_pos z, some_inj h)
cap_pos false z h = cc

after_pos :
    (now : ℕ) (o : Option ℕ) {e : ℕ}
    → ((m : ℕ) → o ≡ some m → 0 < m)
    → after now o ≡ some e
    → now < e
after_pos now none p h = cc
after_pos now (some m) p h = omega (arith, p m refl, some_inj h)

-- An expiry lies in the future.
pub resolve_expiry_future :
    (now : ℕ) (e : Option ℤ) (a : Bool) (days : ℤ) {t : ℕ}
    → resolve_expiry now e a days ≡ some t
    → now < t
unfolding resolve_expiry
resolve_expiry_future now e a days h =
    after_pos now _
      (λ m k.
        lifetime_pos (requested_secs e) (anonymous_cap a days) (λ n. requested_pos e {n = n})
          (λ n. cap_pos a days {n = n}) k)
      h

-- The paste of a stranger always gets an expiry, within the anonymous window and within a year.
pub resolve_expiry_anonymous :
    (now : ℕ) (e : Option ℤ) (days : ℤ)
    → (t : ℕ) × (resolve_expiry now e true days ≡ some t)
      × (t ≤ now + at_least_one days * day_secs)
      × (t ≤ now + max_ttl_secs)
unfolding resolve_expiry
resolve_expiry_anonymous now e days = elim (Option-cases (requested_secs e)) [
  | inl no_wish ↦
      (now + min (at_least_one days * day_secs) max_ttl_secs, rw no_wish, omega arith, omega arith)
  | inr (m, wish) ↦ (
    now + min (min m (at_least_one days * day_secs)) max_ttl_secs,
    rw wish,
    omega arith,
    omega arith,
  )
]

-- A title that is kept is not empty and has at most 120 characters.
pub normalize_title_bounds :
    (title : Option Text) (t : Text)
    → normalize_title title ≡ ok (some t)
    → (is_empty t ≡ false) × (length t ≤ max_title_len)
unfolding normalize_title
normalize_title_bounds none t h = cc
normalize_title_bounds (some raw) t h = elim (Bool-cases (is_empty (trim raw))) [
  | inl gone ↦ cc (rw gone at h)
  | inr kept ↦ elim (Bool-cases (ltb max_title_len (length (trim raw)))) [
    | inl long ↦ cc (rw (kept, long) at h)
    | inr fits ↦
        let same : trim raw ≡ t = cc (rw (kept, fits) at h) in rw (← same) (kept, ground arith)
  ]
]

verdict_clean : (a : Bool) (rules : List Text) → secrets_verdict a rules ≡ ok tt → rules ≡ []
verdict_clean a [] h = refl
verdict_clean true (r ∷ rs) h = cc
verdict_clean false (r ∷ rs) h = cc

-- A stranger gets a body past the scanner only if nothing critical is found in it, confirmed or
-- not.
pub check_for_secrets_stranger :
    (x : External) (content : Text) (confirmed : Bool)
    → check_for_secrets x content true confirmed ≡ ok tt
    → critical_rules (x.scan content) ≡ []
unfolding check_for_secrets
check_for_secrets_stranger x content true h = verdict_clean true _ h
check_for_secrets_stranger x content false h = verdict_clean true _ h
