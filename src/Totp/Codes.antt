-- ===== src/Totp/Codes.antt =====
-- Which one-time codes are accepted, and for how long.
use klappstuhl_me.Prelude.{
  ℕ, suc, ◌+◌, ◌-◌, ◌/◌, ◌%◌, ◌^◌, ◌≤◌, ◌<◌, ◌≡◌, ◌↔◌, ◌⊎◌, refl, sym, ap, ◌∙◌, subst, Bool, true,
  false, [], ◌∷◌, ltb, ◌==◌, ==_iff, any, length, inl, inr, arith, and_left, and_right, ◌&&◌, ◌||◌,
}
use klappstuhl_me.Text.{
  Text, Bytes, text_eq, byte_len, encode, encode_char, remove_char, trim, trim_start, trim_end,
  is_whitespace,
}
use klappstuhl_me.Text.Equality.{text_eq_refl, text_eq_sound}
use klappstuhl_me.Totp.{
  TotpLib, is_ascii_digit, is_code, typed, step_code, hotp, totp_at, current_code, verify,
  time_step, digits,
}
use klappstuhl_me.Totp.Digits.{AreDigits, format_code-AreDigits, length-format_code}

digit_plain :
    (c : ℕ)
    → is_ascii_digit c ≡ true
    → ((c == b' ') ≡ false) × (is_whitespace c ≡ false) × (ltb c 0x80 ≡ true)
unfolding is_ascii_digit is_whitespace
digit_plain c h = (ground arith, ground arith, ground arith)

remove_char-digits : (s : Text) → AreDigits s → remove_char b' ' s ≡ s
unfolding remove_char
remove_char-digits [] h = refl
remove_char-digits (c ∷ s) h =
    let (plain, _, _) = digit_plain c (and_left _ _ h) in
    rw (plain, remove_char-digits s (and_right (is_ascii_digit c) _ h)) refl

trim_end-digits : (s : Text) → AreDigits s → trim_end s ≡ s
unfolding trim_end
trim_end-digits [] h = refl
trim_end-digits (c ∷ []) h = let (_, plain, _) = digit_plain c (and_left _ _ h) in rw plain refl
trim_end-digits (c ∷ d ∷ s) h = rw (trim_end-digits (d ∷ s) (and_right (is_ascii_digit c) _ h)) refl

trim-digits : (s : Text) → AreDigits s → trim s ≡ s
unfolding trim trim_start
trim-digits [] h = trim_end-digits [] h
trim-digits (c ∷ s) h =
    let (_, plain, _) = digit_plain c (and_left _ _ h) in rw plain (trim_end-digits (c ∷ s) h)

typed-digits : (s : Text) → AreDigits s → typed s ≡ s
typed-digits s h = rw (trim-digits s h) (remove_char-digits s h)

pub byte_len-digits : (s : Text) → AreDigits s → byte_len s ≡ length s
unfolding byte_len encode encode_char
byte_len-digits [] h = refl
byte_len-digits (c ∷ s) h =
    let (_, _, ascii) = digit_plain c (and_left _ _ h) in
    rw ascii (ap suc (byte_len-digits s (and_right (is_ascii_digit c) _ h)))

rem_lem : (n : ℕ) → n % 1000000 < 1000000
rem_lem n = omega arith

first_of : (p q r : Bool) → p ≡ true → (p || (q || (r || false))) ≡ true
first_of p q r h = ground arith

second_of : (p q r : Bool) → q ≡ true → (p || (q || (r || false))) ≡ true
second_of p q r h = ground arith

third_of : (p q r : Bool) → r ≡ true → (p || (q || (r || false))) ≡ true
third_of p q r h = ground arith

one_of : (p q r : Bool) → (p || (q || (r || false))) ≡ true → (p ≡ true) ⊎ ((q ≡ true) ⊎ (r ≡ true))
one_of true q r h = inl refl
one_of false true r h = inr (inl refl)
one_of false false true h = inr (inr refl)
one_of false false false h = cc

module _ (f : ℕ → Text) (a b c : ℕ) (t : Text) where
  abbrev Among : Type 0
  Among = (f a ≡ t) ⊎ ((f b ≡ t) ⊎ (f c ≡ t))

  same : (n : ℕ) → f n ≡ t → text_eq (f n) t ≡ true
  same n e = rw e (text_eq_refl t)

  among_sound : any (λ n. text_eq (f n) t) (a ∷ b ∷ c ∷ []) ≡ true → Among
  among_sound h = elim (one_of (text_eq (f a) t) (text_eq (f b) t) (text_eq (f c) t) h) [
    | inl e ↦ inl (text_eq_sound (f a) t e)
    | inr (inl e) ↦ inr (inl (text_eq_sound (f b) t e))
    | inr (inr e) ↦ inr (inr (text_eq_sound (f c) t e))
  ]

  among_complete : Among → any (λ n. text_eq (f n) t) (a ∷ b ∷ c ∷ []) ≡ true
  among_complete (inl e) = first_of _ _ _ (same a e)
  among_complete (inr (inl e)) = second_of _ _ _ (same b e)
  among_complete (inr (inr e)) = third_of _ _ _ (same c e)

  among_one : (P : Text → Type 0) → ((n : ℕ) → P (f n)) → Among → P t
  among_one P h (inl e) = subst P e (h a)
  among_one P h (inr (inl e)) = subst P e (h b)
  among_one P h (inr (inr e)) = subst P e (h c)

and_intro : (p q : Bool) → p ≡ true → q ≡ true → (p && q) ≡ true
and_intro p q h k = rw h k

module _ (x : TotpLib) where
  hotp_below : (secret : Bytes) (counter : ℕ) → hotp x secret counter digits < 10 ^ 6
  unfolding hotp
  hotp_below secret counter = rem_lem _

  step_code-AreDigits : (secret : Bytes) (counter : ℕ) → AreDigits (step_code x secret counter)
  step_code-AreDigits secret counter = format_code-AreDigits (hotp x secret counter digits) digits

  is_code-step_code : (secret : Bytes) (counter : ℕ) → is_code (step_code x secret counter) ≡ true
  unfolding is_code
  is_code-step_code secret counter =
      and_intro _ _
        ((==_iff _ digits).1 (
          byte_len-digits (step_code x secret counter) (step_code-AreDigits secret counter)
          ∙ length-format_code (hotp x secret counter digits) 5 (hotp_below secret counter)))
        (step_code-AreDigits secret counter)

  -- The text is accepted exactly if, without spaces, it is the code of one of three time steps: the
  -- present one, the one before it (there is none before the first) and the next.
  pub verify_iff :
      (secret : Bytes) (now : ℕ) (code : Text)
      → (verify x secret now code ≡ true) ↔ (
          (step_code x secret (now / time_step - 1) ≡ typed code)
          ⊎ ((step_code x secret (now / time_step) ≡ typed code)
              ⊎ (step_code x secret (now / time_step + 1) ≡ typed code)))
  unfolding verify
  verify_iff secret now code = (
    λ h. among_sound (step_code x secret) _ _ _ (typed code) (and_right (is_code (typed code)) _ h),
    λ h.
        and_intro (is_code (typed code)) _
          (among_one (step_code x secret) _ _ _ (typed code) (λ t. is_code t ≡ true)
            (is_code-step_code secret) h)
          (among_complete (step_code x secret) _ _ _ (typed code) h),
  )

  near :
      (secret : Bytes) (shown later : ℕ) (n : ℕ)
      → n ≡ shown / time_step
      → step_code x secret n ≡ typed (current_code x secret shown)
  unfolding current_code totp_at
  near secret shown later n e =
      ap (step_code x secret) e
      ∙ sym (typed-digits _ (step_code-AreDigits secret (shown / time_step)))

  steps_apart :
      (shown later : ℕ)
      → later ≤ time_step
      → ((shown + later) / time_step - 1 ≡ shown / time_step)
        ⊎ ((shown + later) / time_step ≡ shown / time_step)
  steps_apart shown later h = ground arith

  -- A code that is shown at a time is accepted then and for the 30 seconds after.
  pub verify-current_code :
      (secret : Bytes) (shown later : ℕ)
      → later ≤ time_step
      → verify x secret (shown + later) (current_code x secret shown) ≡ true
  verify-current_code secret shown later h =
      (verify_iff secret (shown + later) (current_code x secret shown)).1
        (elim (steps_apart shown later h) [
          | inl before ↦ inl (near secret shown later _ before)
          | inr now ↦ inr (inl (near secret shown later _ now))
        ])

  trim-current_code :
      (secret : Bytes) (shown : ℕ)
      → trim (current_code x secret shown) ≡ current_code x secret shown
  unfolding current_code totp_at
  trim-current_code secret shown = trim-digits _ (step_code-AreDigits secret (shown / time_step))

  -- The handlers trim what was typed.
  pub verify-trim-current_code :
      (secret : Bytes) (now shown : ℕ)
      → shown ≤ now
      → now ≤ shown + time_step
      → verify x secret now (trim (current_code x secret shown)) ≡ true
  verify-trim-current_code secret now shown seen recent =
      let later : shown + (now - shown) ≡ now = omega (arith, seen) in
      ap (λ code. verify x secret now code) (trim-current_code secret shown)
      ∙ ap (λ n. verify x secret n (current_code x secret shown)) (sym later)
      ∙ verify-current_code secret shown (now - shown) (omega (arith, recent, seen))
