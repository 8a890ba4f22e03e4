-- ===== src/Text/Utf8.antt =====
-- UTF-8: what is encoded decodes to the same text.
use klappstuhl_me.Prelude.{
  ℕ, ◌+◌, ◌-◌, ◌*◌, ◌/◌, ◌%◌, ◌≤◌, ◌<◌, ◌≡◌, refl, ap, ◌∙◌, true, List, [], ◌∷◌, ◌++◌, some, arith,
  suc, all, lt→ltb,
}
use native.Mathlib.Decide.{dec_lt}
use klappstuhl_me.Text.{Text, encode_char, encode, is_scalar, prepend, decode_from, from_utf8}

module _ (c : ℕ) (bs : List ℕ) where
  decode_two :
      128 ≤ c
      → c < 2048
      → decode_from 0 0 0 ((192 + c / 64) ∷ (128 + c % 64) ∷ bs) ≡ prepend c (decode_from 0 0 0 bs)
  unfolding decode_from
  decode_two h k = ground arith

  decode_three :
      2048 ≤ c
      → c < 65536
      → is_scalar c ≡ true
      → decode_from 0 0 0 ((224 + c / 4096) ∷ (128 + c / 64 % 64) ∷ (128 + c % 64) ∷ bs)
        ≡ prepend c (decode_from 0 0 0 bs)
  unfolding decode_from
  decode_three h k s = ground arith

decode_lead :
    (b : ℕ) (bs : List ℕ)
    → 240 ≤ b
    → b < 248
    → decode_from 0 0 0 (b ∷ bs) ≡ decode_from 3 (b - 240) 0x10000 bs
unfolding decode_from
decode_lead b bs h k = ground arith

decode_more :
    (n acc lo b : ℕ) (bs : List ℕ)
    → 128 ≤ b
    → b < 192
    → decode_from (suc (suc n)) acc lo (b ∷ bs) ≡ decode_from (suc n) (acc * 64 + (b - 128)) lo bs
unfolding decode_from
decode_more n acc lo b bs h k = ground arith

decode_last :
    (c acc lo b : ℕ) (bs : List ℕ)
    → 128 ≤ b
    → b < 192
    → acc * 64 + (b - 128) ≡ c
    → lo ≤ c
    → is_scalar c ≡ true
    → decode_from 1 acc lo (b ∷ bs) ≡ prepend c (decode_from 0 0 0 bs)
unfolding decode_from
decode_last c acc lo b bs h k e m s = ground arith

decode_four :
    (c : ℕ) (bs : List ℕ)
    → 65536 ≤ c
    → c < 0x110000
    → decode_from 0 0 0
        ((240 + c / 262144) ∷ (128 + c / 4096 % 64) ∷ (128 + c / 64 % 64) ∷ (128 + c % 64) ∷ bs)
      ≡ prepend c (decode_from 0 0 0 bs)
decode_four c bs h k =
    decode_lead _ _ (omega arith) (omega arith)
    ∙ decode_more 1 _ _ _ _ (omega arith) (omega arith)
    ∙ decode_more 0 _ _ _ _ (omega arith) (omega arith)
    ∙ decode_last c _ _ _ bs (omega arith) (omega arith) (omega arith) h (ground arith)

module _ (c : ℕ) (bs : List ℕ) where
  encode_char_one : c < 128 → decode_from 0 0 0 (encode_char c ++ bs) ≡ decode_from 0 0 0 (c ∷ bs)
  encode_char_one p =
      ap (λ e. decode_from 0 0 0 (e ++ bs))
        (let x : encode_char c ≡ c ∷ [] = unfold encode_char in ground arith in x)

  decode_one : c < 128 → decode_from 0 0 0 (c ∷ bs) ≡ prepend c (decode_from 0 0 0 bs)
  unfolding decode_from
  decode_one h = rw (lt→ltb c 128 h)

  encode_char_two :
      ¬ (c < 128)
      → c < 2048
      → decode_from 0 0 0 (encode_char c ++ bs)
        ≡ decode_from 0 0 0 ((192 + c / 64) ∷ (128 + c % 64) ∷ bs)
  encode_char_two p q =
      ap (λ e. decode_from 0 0 0 (e ++ bs))
        (let x : encode_char c ≡ (192 + c / 64) ∷ (128 + c % 64) ∷ [] =
            unfold encode_char in ground arith in
          x)

  encode_char_three :
      ¬ (c < 128)
      → ¬ (c < 2048)
      → c < 65536
      → decode_from 0 0 0 (encode_char c ++ bs)
        ≡ decode_from 0 0 0 ((224 + c / 4096) ∷ (128 + c / 64 % 64) ∷ (128 + c % 64) ∷ bs)
  encode_char_three p q r =
      ap (λ e. decode_from 0 0 0 (e ++ bs))
        (let x : encode_char c ≡ (224 + c / 4096) ∷ (128 + c / 64 % 64) ∷ (128 + c % 64) ∷ [] =
            unfold encode_char in ground arith in
          x)

  encode_char_four :
      ¬ (c < 128)
      → ¬ (c < 2048)
      → ¬ (c < 65536)
      → decode_from 0 0 0 (encode_char c ++ bs)
        ≡ decode_from 0 0 0
            ((240 + c / 262144) ∷ (128 + c / 4096 % 64) ∷ (128 + c / 64 % 64) ∷ (128 + c % 64) ∷ bs)
  encode_char_four p q r =
      ap (λ e. decode_from 0 0 0 (e ++ bs))
        (let x : encode_char c
              ≡ (240 + c / 262144)
                ∷ (128 + c / 4096 % 64)
                ∷ (128 + c / 64 % 64)
                ∷ (128 + c % 64)
                ∷ [] =
            unfold encode_char in ground arith in
          x)

decode_from-encode_char :
    (c : ℕ) (bs : List ℕ)
    → is_scalar c ≡ true
    → decode_from 0 0 0 (encode_char c ++ bs) ≡ prepend c (decode_from 0 0 0 bs)
decode_from-encode_char c bs h = elim (dec_lt c 128) [
  | yes p ↦ encode_char_one c bs p ∙ decode_one c bs p
  | no p ↦ elim (dec_lt c 2048) [
    | yes q ↦ encode_char_two c bs p q ∙ decode_two c bs (omega arith) q
    | no q ↦ elim (dec_lt c 65536) [
      | yes r ↦ encode_char_three c bs p q r ∙ decode_three c bs (omega arith) r h
      | no r ↦ encode_char_four c bs p q r ∙ decode_four c bs (omega arith) (ground arith)
    ]
  ]
]

decode_from-encode : (s : Text) → all is_scalar s ≡ true → decode_from 0 0 0 (encode s) ≡ some s
unfolding encode
decode_from-encode [] h = unfold decode_from in refl
decode_from-encode (c ∷ s) h =
    decode_from-encode_char c (encode s) (ground arith)
    ∙ ap (prepend c) (decode_from-encode s (ground arith))

-- A text of Unicode scalar values comes back from its bytes.
pub from_utf8-encode : (s : Text) → all is_scalar s ≡ true → from_utf8 (encode s) ≡ some s
unfolding from_utf8
from_utf8-encode s h = decode_from-encode s h
