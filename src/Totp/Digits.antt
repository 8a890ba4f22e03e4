-- ===== src/Totp/Digits.antt =====
-- The decimal digits of a one-time code.
use klappstuhl_me.Prelude.{
  ◌*◌, ◌∙◌, ℕ, zero, suc, ◌+◌, ◌-◌, ◌/◌, ◌%◌, ◌^◌, ◌≤◌, ◌<◌, ◌≡◌, refl, ap, true, false, [], ◌∷◌,
  ◌++◌, ltb, all, length, replicate, length-append, all-append, Bool-cases, inl, inr, ltb→lt, arith,
}
use klappstuhl_me.Text.{Text}
use klappstuhl_me.Totp.{decimal, padded, format_code, is_ascii_digit}

abbrev pub AreDigits : Text → Type 0
AreDigits s = all is_ascii_digit s ≡ true

ltb_ge : (a b : ℕ) → ltb a b ≡ false → b ≤ a
ltb_ge a b h = ground arith

digit_lem : (v : ℕ) → v < 10 → is_ascii_digit (b'0' + v) ≡ true
unfolding is_ascii_digit
digit_lem v h = ground arith

pub decimal-AreDigits : (fuel v : ℕ) → AreDigits (decimal fuel v)
unfolding decimal
decimal-AreDigits zero v = refl
decimal-AreDigits (suc fuel) v = elim (Bool-cases (ltb v 10)) [
  | inl small ↦ rw small (rw (digit_lem v (ltb→lt v 10 small)))
  | inr large ↦ rw large (
      all-append is_ascii_digit (decimal fuel (v / 10)) _ (decimal-AreDigits fuel (v / 10))
        (rw (digit_lem (v % 10) (omega arith))))
]

zeros-AreDigits : (n : ℕ) → AreDigits (replicate n b'0')
unfolding is_ascii_digit
zeros-AreDigits zero = refl
zeros-AreDigits (suc n) = zeros-AreDigits n

pub format_code-AreDigits : (v w : ℕ) → AreDigits (format_code v w)
unfolding format_code padded
format_code-AreDigits v w =
    all-append is_ascii_digit (replicate _ b'0') _ (zeros-AreDigits _) (decimal-AreDigits (suc v) v)

below_tenth : (v w : ℕ) → v < 10 ^ suc (suc w) → v / 10 < 10 ^ suc w
below_tenth v w h = omega (arith, h)

one_more :
    (v w : ℕ) (rest : Text)
    → v < 10 ^ suc w
    → 10 ≤ v
    → ((u : ℕ) → v / 10 < 10 ^ suc u → length rest ≤ suc u)
    → length (rest ++ (b'0' + v % 10) ∷ []) ≤ suc w
one_more v zero rest h k shorter = omega arith
one_more v (suc w) rest h k shorter =
    omega (arith, length-append rest ((b'0' + v % 10) ∷ []), shorter w (below_tenth v w h))

pub length-decimal : (fuel v w : ℕ) → v < 10 ^ suc w → length (decimal fuel v) ≤ suc w
unfolding decimal
length-decimal zero v w h = omega arith
length-decimal (suc fuel) v w h = elim (Bool-cases (ltb v 10)) [
  | inl small ↦ rw small (omega arith)
  | inr large ↦
      rw large
        (one_more v w (decimal fuel (v / 10)) h (ltb_ge v 10 large) (length-decimal fuel (v / 10)))
]

length-replicate : (n c : ℕ) → length (replicate n c) ≡ n
length-replicate zero c = refl
length-replicate (suc n) c = ap suc (length-replicate n c)

pub length-format_code : (v w : ℕ) → v < 10 ^ suc w → length (format_code v (suc w)) ≡ suc w
unfolding format_code padded
length-format_code v w h = omega (
  arith,
  length-append (replicate (suc w - length (decimal (suc v) v)) b'0') (decimal (suc v) v),
  length-replicate (suc w - length (decimal (suc v) v)) b'0',
  length-decimal (suc v) v w h,
)

-- The number that a text of digits writes, after what was read before.
abbrev read : ℕ → Text → ℕ
read before [] = before
read before (c ∷ s) = read (before * 10 + (c - b'0')) s

read-append :
    (before c : ℕ) (s : Text) → read before (s ++ c ∷ []) ≡ read before s * 10 + (c - b'0')
read-append before c [] = refl
read-append before c (d ∷ s) = read-append (before * 10 + (d - b'0')) c s

read-decimal : (fuel v : ℕ) → v < fuel → read 0 (decimal fuel v) ≡ v
unfolding decimal
read-decimal zero v h = absurd (omega (arith, h))
read-decimal (suc fuel) v h = elim (Bool-cases (ltb v 10)) [
  | inl small ↦ rw small (omega arith)
  | inr large ↦
      let below : v / 10 < fuel = omega (arith, h, ltb_ge v 10 large) in
      rw large (
        omega (
          arith,
          read-append 0 (b'0' + v % 10) (decimal fuel (v / 10)),
          read-decimal fuel (v / 10) below,
        ))
]

read-zeros : (n : ℕ) (s : Text) → read 0 (replicate n b'0' ++ s) ≡ read 0 s
read-zeros zero s = refl
read-zeros (suc n) s = read-zeros n s

-- A code is its number, written in decimal: the fuel was enough.
read-format_code : (v w : ℕ) → read 0 (format_code v w) ≡ v
unfolding format_code padded
read-format_code v w =
    read-zeros (w - length (decimal (suc v) v)) (decimal (suc v) v)
    ∙ read-decimal (suc v) v (omega arith)
