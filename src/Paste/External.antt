-- ===== src/Paste/External.antt =====
-- The libraries that the pastebin calls: argon2, chacha20poly1305, sha2, base64, secretshape and
-- the signing key of kls_web_core. Each is a function, with what the code relies on as a law.
use klappstuhl_me.Prelude.{ℕ, ◌≡◌, Bool, Option, some, List}
use klappstuhl_me.Text.{Text, Bytes}

-- One finding of the secret scanner.
pub record Finding : Type 0 where
  pub rule : Text
  pub critical : Bool

-- The signed payload of an unlock cookie.
pub record UnlockClaim : Type 0 where
  pub id : Text
  pub key : Text
  pub exp : ℕ

pub record External : Type 0 where
  -- `Argon2::hash_password_into`, from a password and a salt.
  pub hash_password_into : Bytes → Bytes → Option Bytes
  -- ChaCha20-Poly1305, from a key and a nonce.
  pub encrypt : Bytes → Bytes → Bytes → Option Bytes
  pub decrypt : Bytes → Bytes → Bytes → Option Bytes
  -- SHA-256.
  pub digest : Bytes → Bytes
  -- `secretshape::scan`.
  pub scan : Text → List Finding
  -- `base64` with the standard alphabet.
  pub encode64 : Bytes → Text
  pub decode64 : Text → Option Bytes
  -- `SecretKey::sign` and `SecretKey::verify`.
  pub sign : UnlockClaim → Option Text
  pub verify : Text → Option UnlockClaim

-- What was sealed under a key and a nonce opens under them.
abbrev pub Opens : External → Type 0
Opens x =
    (key nonce plain sealed : Bytes)
    → x.encrypt key nonce plain ≡ some sealed
    → x.decrypt key nonce sealed ≡ some plain

-- A signed claim verifies, and base64 text decodes to what was encoded.
abbrev pub Verifies : External → Type 0
Verifies x =
    (claim : UnlockClaim) (token : Text) → x.sign claim ≡ some token → x.verify token ≡ some claim

abbrev pub Decodes : External → Type 0
Decodes x = (bytes : Bytes) → x.decode64 (x.encode64 bytes) ≡ some bytes
