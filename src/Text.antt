-- ===== src/Text.antt =====
-- The text operations of the Rust standard library that the program calls. A text is the list of
-- its code points; `len` counts the bytes of its UTF-8 form.
pub mod Trim
pub mod Utf8
pub mod Equality
use Prim.Native.Char.{code}
use Prim.Native.String.{String}
use klappstuhl_me.Prelude.{
  ℕ, zero, suc, ◌+◌, ◌-◌, ◌*◌, ◌/◌, ◌%◌, Bool, true, false, not, ◌&&◌, ◌||◌, Option, none, some,
  List, [], ◌∷◌, ◌++◌, map, if◌then◌else◌, ltb, leb, ◌==◌, all, any, length,
}

abbrev pub Text : Type 0
Text = List ℕ

abbrev pub Bytes : Type 0
Bytes = List ℕ

-- A literal of the source.
abbrev pub codes : String → Text
codes String.[] = []
codes (String.◌∷◌ c s) = code c ∷ codes s

-- `==` on texts.
unfoldable pub text_eq : Text → Text → Bool
text_eq [] [] = true
text_eq [] (d ∷ t) = false
text_eq (c ∷ s) [] = false
text_eq (c ∷ s) (d ∷ t) = (c == d) && text_eq s t

-- `char::is_whitespace`: the White_Space property of Unicode.
unfoldable pub is_whitespace : ℕ → Bool
is_whitespace c =
    (leb 9 c && leb c 13)
    || (c == 32)
    || (c == 0x85)
    || (c == 0xa0)
    || (c == 0x1680)
    || (leb 0x2000 c && leb c 0x200a)
    || (c == 0x2028)
    || (c == 0x2029)
    || (c == 0x202f)
    || (c == 0x205f)
    || (c == 0x3000)

unfoldable pub trim_start : Text → Text
unfolding is_whitespace
trim_start [] = []
trim_start (c ∷ s) = if is_whitespace c then trim_start s else c ∷ s

-- A character of the end goes only if all that follows it went.
abbrev pub push_end : ℕ → Bool → Text → Text
push_end c white [] = if white then [] else c ∷ []
push_end c white (d ∷ s) = c ∷ d ∷ s

unfoldable pub trim_end : Text → Text
unfolding is_whitespace
trim_end [] = []
trim_end (c ∷ s) = push_end c (is_whitespace c) (trim_end s)

unfoldable pub trim : Text → Text
unfolding trim_start trim_end
trim s = trim_end (trim_start s)

abbrev pub is_empty : Text → Bool
is_empty [] = true
is_empty (c ∷ s) = false

unfoldable pub lower : ℕ → ℕ
lower c = if leb b'A' c && leb c b'Z' then c + 32 else c

unfoldable pub to_ascii_lowercase : Text → Text
unfolding lower
to_ascii_lowercase s = map lower s

-- `s.strip_prefix(p)`.
unfoldable pub strip_prefix : Text → Text → Option Text
strip_prefix [] s = some s
strip_prefix (c ∷ p) [] = none
strip_prefix (c ∷ p) (d ∷ s) = let rest = strip_prefix p s in if c == d then rest else none

unfoldable pub contains_char : ℕ → Text → Bool
contains_char c s = any (λ d. d == c) s

-- What stands before the first `c`, or the whole text: `s.split(c).next()`.
unfoldable pub before : ℕ → Text → Text
before c [] = []
before c (d ∷ s) = let rest = before c s in if d == c then [] else d ∷ rest

-- `s.replace(c, "")`.
unfoldable pub remove_char : ℕ → Text → Text
remove_char c [] = []
remove_char c (d ∷ s) = let rest = remove_char c s in if d == c then rest else d ∷ rest

-- UTF-8.
unfoldable pub encode_char : ℕ → Bytes
encode_char c =
    if ltb c 0x80
    then c ∷ []
    else if ltb c 0x800
    then (192 + c / 64) ∷ (128 + c % 64) ∷ []
    else if ltb c 0x10000
    then (224 + c / 4096) ∷ (128 + c / 64 % 64) ∷ (128 + c % 64) ∷ []
    else (240 + c / 262144) ∷ (128 + c / 4096 % 64) ∷ (128 + c / 64 % 64) ∷ (128 + c % 64) ∷ []

-- `as_bytes`, `into_bytes`.
unfoldable pub encode : Text → Bytes
unfolding encode_char
encode [] = []
encode (c ∷ s) = encode_char c ++ encode s

-- `s.len()`.
unfoldable pub byte_len : Text → ℕ
unfolding encode
byte_len s = length (encode s)

abbrev pub is_scalar : ℕ → Bool
is_scalar c = ltb c 0xd800 || (leb 0xe000 c && ltb c 0x110000)

abbrev prepend : ℕ → Option Text → Option Text
prepend c none = none
prepend c (some s) = some (c ∷ s)

-- `need` more bytes complete a character that is at least `lo` and begins with `acc`.
decode_from : ℕ → ℕ → ℕ → Bytes → Option Text
decode_from zero acc lo [] = some []
decode_from (suc n) acc lo [] = none
decode_from zero acc lo (b ∷ bs) =
    let one = prepend b (decode_from 0 0 0 bs) in
    let two = decode_from 1 (b - 192) 0x80 bs in
    let three = decode_from 2 (b - 224) 0x800 bs in
    let four = decode_from 3 (b - 240) 0x10000 bs in
    if ltb b 0x80
    then one
    else if ltb b 192
    then none
    else if ltb b 224
    then two
    else if ltb b 240
    then three
    else if ltb b 248
    then four
    else none
decode_from (suc zero) acc lo (b ∷ bs) =
    let c = acc * 64 + (b - 128) in
    let rest = prepend c (decode_from 0 0 0 bs) in
    if leb 128 b && ltb b 192 && leb lo c && is_scalar c then rest else none
decode_from (suc (suc n)) acc lo (b ∷ bs) =
    let rest = decode_from (suc n) (acc * 64 + (b - 128)) lo bs in
    if leb 128 b && ltb b 192 then rest else none

-- `String::from_utf8`, `str::from_utf8`: none unless the bytes are well formed.
unfoldable pub from_utf8 : Bytes → Option Text
unfolding decode_from
from_utf8 bs = decode_from 0 0 0 bs
