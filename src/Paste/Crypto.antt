-- ===== src/Paste/Crypto.antt =====
-- src/site/paste/crypto.rs: sealing a body under a password, and the unlock cookie.
use klappstuhl_me.Prelude.{
  ℕ, ◌+◌, ◌*◌, not, ◌||◌, Option, none, some, if◌then◌else◌, ◌==◌, leb, length, ◌>>=◌,
}
use klappstuhl_me.Text.{Text, Bytes, text_eq, encode}
use klappstuhl_me.Paste.External.{External, UnlockClaim}

abbrev pub key_len : ℕ
key_len = 32

abbrev pub unlock_ttl_secs : ℕ
unlock_ttl_secs = 30 * 60

pub record Sealed : Type 0 where
  pub ciphertext : Bytes
  pub salt : Bytes
  pub nonce : Bytes

module _ (x : External) where
  unfoldable pub derive_key : Text → Bytes → Option Bytes
  derive_key password salt = x.hash_password_into (encode password) salt

  unfoldable pub seal_with_key : Bytes → Bytes → Bytes → Option Bytes
  seal_with_key key nonce plaintext = x.encrypt key nonce plaintext

  -- The random salt and nonce are arguments; `none` where the system has no randomness.
  unfoldable pub seal : Option Bytes → Option Bytes → Text → Bytes → Option Sealed
  unfolding derive_key seal_with_key
  seal random_salt random_nonce password plaintext = do
    salt ← random_salt
    nonce ← random_nonce
    key ← derive_key password salt
    ciphertext ← seal_with_key key nonce plaintext
    some (record { ciphertext = ciphertext; salt = salt; nonce = nonce })

  unfoldable pub open_with_key : Bytes → Bytes → Bytes → Option Bytes
  open_with_key key nonce ciphertext = x.decrypt key nonce ciphertext

  unfoldable pub open_and_keep_key : Text → Bytes → Bytes → Bytes → Option (Bytes × Bytes)
  unfolding derive_key open_with_key
  open_and_keep_key password salt nonce ciphertext = do
    key ← derive_key password salt
    plaintext ← open_with_key key nonce ciphertext
    some (key, plaintext)

  unfoldable pub sign_unlock : ℕ → Text → Bytes → Option Text
  sign_unlock now id content_key =
      x.sign (record { id = id; key = x.encode64 content_key; exp = now + unlock_ttl_secs })

  -- `bytes.try_into()` to an array of `KEY_LEN`.
  abbrev as_key : Bytes → Option Bytes
  as_key bytes = if length bytes == key_len then some bytes else none

  abbrev claimed_key : ℕ → Text → UnlockClaim → Option Bytes
  claimed_key now id claim =
      if not (text_eq claim.id id) || leb claim.exp now
      then none
      else (x.decode64 claim.key >>= as_key)

  unfoldable pub verify_unlock : ℕ → Text → Text → Option Bytes
  verify_unlock now id token = do claim ← x.verify token; claimed_key now id claim
