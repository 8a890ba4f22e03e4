-- ===== src/Discord/Names.antt =====
-- The names that are made up for accounts of Discord.
use klappstuhl_me.Prelude.{
  ℕ, zero, suc, ◌%◌, ◌≤◌, ◌≡◌, refl, sym, ap, ◌∙◌, subst, Bool, true, ◌&&◌, [], ◌∷◌, ◌++◌, leb, ltb,
  leb→le, all, all-append, take, length, take-append, length-append, Bool-cases, inl, inr, and_left,
  and_right, arith,
}
use klappstuhl_me.Text.{Text, codes, byte_len, encode, encode_char}
use klappstuhl_me.Account.{is_valid_username, is_username_char}
use klappstuhl_me.Totp.{decimal, is_ascii_digit, format_code}
use klappstuhl_me.Totp.Digits.{AreDigits, decimal-AreDigits, format_code-AreDigits, length-decimal}
use klappstuhl_me.Totp.Codes.{byte_len-digits}
use klappstuhl_me.Discord.{
  stripped, underscored, generated, pad_or_generate, sanitize_username, append_random_suffix,
}

encode_char_some : (c : ℕ) → 1 ≤ length (encode_char c)
unfolding encode_char
encode_char_some c = ground arith

length_below : (s : Text) → length s ≤ byte_len s
unfolding byte_len encode
length_below [] = omega arith
length_below (c ∷ s) =
    omega (arith, length-append (encode_char c) (encode s), encode_char_some c, length_below s)

take_all : (n : ℕ) (s : Text) → length s ≤ n → take n s ≡ s
take_all zero [] h = refl
take_all zero (c ∷ s) h = absurd (omega (arith, h))
take_all (suc n) [] h = refl
take_all (suc n) (c ∷ s) h = ap (λ t. c ∷ t) (take_all n s (omega (arith, h)))

digit_is_username_char : (c : ℕ) → is_ascii_digit c ≡ true → is_username_char c ≡ true
unfolding is_ascii_digit is_username_char
digit_is_username_char c h = ground arith

digits_fit : (s : Text) → AreDigits s → all is_username_char s ≡ true
digits_fit [] h = refl
digits_fit (c ∷ s) h =
    rw (digit_is_username_char c (and_left (is_ascii_digit c) _ h))
      (digits_fit s (and_right (is_ascii_digit c) _ h))

short_enough :
    (n : ℕ)
    → n ≤ 8
    → ((leb 3 (suc (suc (suc (suc (suc n))))) && leb (suc (suc (suc (suc (suc n))))) 32) && true)
      ≡ true
short_enough n h = ground arith

digits_after_user :
    (d : Text) → AreDigits d → length d ≤ 8 → is_valid_username (codes "user-" ++ d) ≡ true
unfolding is_valid_username is_username_char byte_len encode encode_char
digits_after_user d h k =
    let e : length (encode d) ≡ length d = byte_len-digits d h in
    rw (e, digits_fit d h) (short_enough (length d) k)

is_valid_username-generated : (random : ℕ) → is_valid_username (generated random) ≡ true
is_valid_username-generated random =
    let n = random % 100000000 in
    digits_after_user (decimal (suc n) n) (decimal-AreDigits (suc n) n)
      (length-decimal (suc n) n 7 (omega arith))

at_most_32 : (s : Text) → is_valid_username s ≡ true → byte_len s ≤ 32
unfolding is_valid_username
at_most_32 s h = leb→le (byte_len s) 32 (
    and_right (leb 3 (byte_len s)) (leb (byte_len s) 32)
      (and_left (leb 3 (byte_len s) && leb (byte_len s) 32) (all is_username_char s) h))

is_valid_username-take :
    (s : Text) → is_valid_username s ≡ true → is_valid_username (take 32 s) ≡ true
is_valid_username-take s h =
    ap is_valid_username (take_all 32 s (omega (arith, length_below s, at_most_32 s h))) ∙ h

-- Whatever Discord calls a user, the name that is made up for it is a valid username.
pub is_valid_username-sanitize_username :
    (to_lowercase : Text → Text) (random : ℕ) (name : Text)
    → is_valid_username (sanitize_username to_lowercase random name) ≡ true
unfolding sanitize_username
is_valid_username-sanitize_username to_lowercase random name =
    elim (Bool-cases (
      leb 3 (byte_len (stripped (to_lowercase name)))
      && is_valid_username (stripped (to_lowercase name)))) [
        | inl good ↦ rw good (and_right (leb 3 (byte_len (stripped (to_lowercase name)))) _ good)
        | inr bad ↦ rw bad (padded (underscored (stripped (to_lowercase name))))
      ]
  where
    padded : (s : Text) → is_valid_username (pad_or_generate random s) ≡ true
    padded s = elim (Bool-cases (is_valid_username s)) [
      | inr bad ↦ rw bad (is_valid_username-generated random)
      | inl good ↦ rw good (is_valid_username-take s good)
    ]

all-take : (f : ℕ → Bool) (n : ℕ) (s : Text) → all f s ≡ true → all f (take n s) ≡ true
all-take f zero [] h = refl
all-take f zero (c ∷ s) h = refl
all-take f (suc n) [] h = refl
all-take f (suc n) (c ∷ s) h =
    rw (and_left (f c) (all f s) h) (all-take f n s (and_right (f c) (all f s) h))

length-take_bounds :
    (m n : ℕ) (s : Text) → m ≤ n → m ≤ length s → (m ≤ length (take n s)) × (length (take n s) ≤ n)
length-take_bounds m zero [] h k = (h, omega arith)
length-take_bounds m zero (c ∷ s) h k = (h, omega arith)
length-take_bounds m (suc n) [] h k = (k, omega arith)
length-take_bounds zero (suc n) (c ∷ s) h k =
    let (low, high) = length-take_bounds zero n s (omega arith) (omega arith) in
    (omega arith, omega (arith, high))
length-take_bounds (suc m) (suc n) (c ∷ s) h k =
    let (low, high) = length-take_bounds m n s (omega (arith, h)) (omega (arith, k)) in
    (omega (arith, low), omega (arith, high))

username_char_lem : (c : ℕ) → is_username_char c ≡ true → ltb c 0x80 ≡ true
unfolding is_username_char
username_char_lem c h = ground arith

byte_len-username : (s : Text) → all is_username_char s ≡ true → byte_len s ≡ length s
unfolding byte_len encode encode_char
byte_len-username [] h = refl
byte_len-username (c ∷ s) h =
    rw (username_char_lem c (and_left (is_username_char c) _ h))
      (ap suc (byte_len-username s (and_right (is_username_char c) _ h)))

valid_lem : (n : ℕ) (b : Bool) → 3 ≤ n → n ≤ 32 → b ≡ true → ((leb 3 n && leb n 32) && b) ≡ true
valid_lem n b low high h = ground arith

-- A suffix leaves a valid name valid.
pub is_valid_username-append_random_suffix :
    (random : ℕ) (base : Text)
    → is_valid_username base ≡ true
    → is_valid_username (append_random_suffix random base) ≡ true
unfolding append_random_suffix is_valid_username is_username_char
is_valid_username-append_random_suffix random base h =
    let plain : all is_username_char base ≡ true =
      and_right (leb 3 (byte_len base) && leb (byte_len base) 32) _ h in
    let low : 3 ≤ length base =
      subst (λ n. 3 ≤ n) (byte_len-username base plain)
        (leb→le 3 (byte_len base) (
          and_left (leb 3 (byte_len base)) (leb (byte_len base) 32)
            (and_left (leb 3 (byte_len base) && leb (byte_len base) 32) _ h))) in
    let long = base ++ b'-' ∷ format_code (random % 10000) 4 in
    let spelled : all is_username_char long ≡ true =
      all-append is_username_char base _ plain
        (digits_fit _ (format_code-AreDigits (random % 10000) 4)) in
    let cut = all-take is_username_char 32 long spelled in
    let (least, most) =
      length-take_bounds 3 32 long (omega arith)
        (omega (arith, low, length-append base (b'-' ∷ format_code (random % 10000) 4))) in
    rw (byte_len-username (take 32 long) cut) (valid_lem (length (take 32 long)) _ least most cut)

-- A taken name of 32 characters is tried again unchanged: the suffix is cut off, whatever it is.
pub append_random_suffix_full :
    (random : ℕ) (base : Text) → length base ≡ 32 → append_random_suffix random base ≡ base
unfolding append_random_suffix
append_random_suffix_full random base h =
    ap (λ n. take n (base ++ b'-' ∷ format_code (random % 10000) 4)) (sym h) ∙ take-append base _
