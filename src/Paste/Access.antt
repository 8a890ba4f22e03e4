-- ===== src/Paste/Access.antt =====
-- src/site/paste/service.rs: who is asking, and the edit token.
use Prim.Native.Nat.{bit_or, bit_xor}
use klappstuhl_me.Prelude.{
  ℕ, ◌+◌, ◌-◌, ◌/◌, ◌%◌, Bool, true, false, Option, none, some, [], ◌∷◌, if◌then◌else◌, ltb, ◌==◌,
  length, not,
}
use klappstuhl_me.Text.{Text, Bytes, encode, trim}
use klappstuhl_me.Account.{Account}
use klappstuhl_me.Paste.External.{External}
use klappstuhl_me.Paste.Row.{Paste, owned_by}

pub data Creator : Type 0 where
  account : Account → Creator
  anonymous : Creator

unfoldable pub account_id : Creator → Option ℕ
account_id (account a) = some a.id
account_id anonymous = none

unfoldable pub is_anonymous : Creator → Bool
is_anonymous (account a) = false
is_anonymous anonymous = true

pub record Actor : Type 0 where
  pub account : Option Account
  pub edit_token : Option Text

-- One lowercase hexadecimal digit.
abbrev hex_digit : ℕ → ℕ
hex_digit d = if ltb d 10 then b'0' + d else b'a' + d - 10

-- `sha256_hex` of src/site/media/scan.rs, after the digest: two digits for each byte.
unfoldable hex : Bytes → Text
hex [] = []
hex (b ∷ bs) = hex_digit (b / 16 % 16) ∷ hex_digit (b % 16) ∷ hex bs

-- The loop of `ct_eq`, over both sides in step.
unfoldable difference : ℕ → Bytes → Bytes → ℕ
difference diff [] b = diff
difference diff (x ∷ a) [] = diff
difference diff (x ∷ a) (y ∷ b) = difference (bit_or diff (bit_xor x y)) a b

unfoldable pub ct_eq : Bytes → Bytes → Bool
unfolding difference
ct_eq a b = if not (length a == length b) then false else difference 0 a b == 0

module _ (x : External) where
  unfoldable pub sha256_hex : Bytes → Text
  unfolding hex
  sha256_hex bytes = hex (x.digest bytes)

  unfoldable pub hash_edit_token : Text → Text
  unfolding sha256_hex trim
  hash_edit_token token = sha256_hex (encode (trim token))

  abbrev pub owns : Option Account → Paste → Bool
  owns none paste = false
  owns (some acc) paste = owned_by paste acc

  abbrev token_matches : Option Text → Option Text → Bool
  token_matches none stored = false
  token_matches (some raw) none = false
  token_matches (some raw) (some stored) = ct_eq (encode (hash_edit_token raw)) (encode stored)

  unfoldable pub may_modify : Actor → Paste → Bool
  may_modify actor paste =
      if owns actor.account paste
      then true
      else token_matches actor.edit_token paste.edit_token_hash
