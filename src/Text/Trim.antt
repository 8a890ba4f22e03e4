-- ===== src/Text/Trim.antt =====
-- Trimming.
use klappstuhl_me.Prelude.{ℕ, ◌≡◌, refl, Bool, false, [], ◌∷◌, Bool-cases, inl, inr, ap, ◌∙◌}
use klappstuhl_me.Text.{Text, is_whitespace, trim_start, trim_end, trim, push_end}

-- The first character is none of the white ones.
abbrev IsTrimmedStart : Text → Type 0
IsTrimmedStart [] = Unit {0}
IsTrimmedStart (c ∷ s) = is_whitespace c ≡ false

trim_start-IsTrimmedStart : (s : Text) → IsTrimmedStart (trim_start s)
unfolding trim_start
trim_start-IsTrimmedStart [] = tt
trim_start-IsTrimmedStart (c ∷ s) = elim (Bool-cases (is_whitespace c)) [
  | inl white ↦ rw white (trim_start-IsTrimmedStart s)
  | inr plain ↦ rw plain plain
]

trim_start_fixed : (s : Text) → IsTrimmedStart s → trim_start s ≡ s
unfolding trim_start
trim_start_fixed [] h = refl
trim_start_fixed (c ∷ s) h = rw h

push_end-IsTrimmedStart :
    (c : ℕ) (w : Bool) (s : Text)
    → is_whitespace c ≡ false
    → w ≡ false
    → IsTrimmedStart (push_end c w s)
push_end-IsTrimmedStart c w [] h k = rw k h
push_end-IsTrimmedStart c w (d ∷ s) h k = h

trim_end-IsTrimmedStart : (s : Text) → IsTrimmedStart s → IsTrimmedStart (trim_end s)
unfolding trim_end
trim_end-IsTrimmedStart [] h = tt
trim_end-IsTrimmedStart (c ∷ s) h = push_end-IsTrimmedStart c (is_whitespace c) (trim_end s) h h

trim_end_push :
    (c : ℕ) (r : Text)
    → trim_end r ≡ r
    → trim_end (push_end c (is_whitespace c) r) ≡ push_end c (is_whitespace c) r
unfolding trim_end
trim_end_push c [] h = elim (Bool-cases (is_whitespace c)) [
  | inl white ↦ rw white
  | inr plain ↦ rw (plain, plain)
]
trim_end_push c (d ∷ r) h = ap (push_end c (is_whitespace c)) h

trim_end_idem : (s : Text) → trim_end (trim_end s) ≡ trim_end s
unfolding trim_end
trim_end_idem [] = refl
trim_end_idem (c ∷ s) = trim_end_push c (trim_end s) (trim_end_idem s)

pub trim_idem : (s : Text) → trim (trim s) ≡ trim s
unfolding trim
trim_idem s =
    ap trim_end
      (trim_start_fixed (trim s) (trim_end-IsTrimmedStart _ (trim_start-IsTrimmedStart s)))
    ∙ trim_end_idem (trim_start s)
