-- ===== src/Totp.antt =====
-- src/auth/totp.rs: one-time codes, the secret as it is stored, and recovery codes. HMAC-SHA1,
-- ChaCha20-Poly1305, base64, SHA-256 and the Unicode tables are parameters. A bit mask of a byte is
-- a remainder, and an `or` of bytes at distinct places is a sum.
pub mod Digits
pub mod Codes
pub mod Secrets
use klappstuhl_me.Prelude.{
  ℕ, zero, suc, ◌+◌, ◌-◌, ◌*◌, ◌/◌, ◌%◌, ◌^◌, Bool, true, false, not, ◌&&◌, ◌||◌, Option, none,
  some, List, [], ◌∷◌, ◌++◌, if◌then◌else◌, ltb, leb, ◌==◌, all, any, map, length, replicate, take,
  drop, ◌>>=◌,
}
use klappstuhl_me.Text.{Text, Bytes, codes, text_eq, trim, remove_char, byte_len, encode}

pub record TotpLib : Type 0 where
  -- HMAC-SHA1 of a key and a message.
  pub hmac : Bytes → Bytes → Bytes
  -- ChaCha20-Poly1305 under the application's key, with a nonce.
  pub encrypt : Bytes → Bytes → Option Bytes
  pub decrypt : Bytes → Bytes → Option Bytes
  pub encode64 : Bytes → Text
  pub decode64 : Text → Option Bytes
  pub sha256_hex : Bytes → Text
  pub to_lowercase : Text → Text

abbrev pub digits : ℕ
digits = 6

abbrev pub time_step : ℕ
time_step = 30

abbrev pub nonce_len : ℕ
nonce_len = 12

abbrev pub tag_len : ℕ
tag_len = 16

-- A digest has 20 bytes, and an index is at most 18: the end of the list is not met.
abbrev byte_at : ℕ → Bytes → ℕ
byte_at i [] = 0
byte_at zero (b ∷ bs) = b
byte_at (suc i) (b ∷ bs) = byte_at i bs

unfoldable be_bytes : ℕ → ℕ → Bytes
be_bytes zero n = []
be_bytes (suc w) n = be_bytes w (n / 256) ++ (n % 256) ∷ []

abbrev digest_offset : Bytes → ℕ
digest_offset hash = byte_at 19 hash % 16

abbrev truncated : Bytes → ℕ → ℕ
truncated hash o =
    (byte_at o hash % 128) * 2 ^ 24
    + byte_at (o + 1) hash * 2 ^ 16
    + byte_at (o + 2) hash * 2 ^ 8
    + byte_at (o + 3) hash

-- Decimal digits; one step of fuel for each is enough, and the number itself is more.
unfoldable pub decimal : ℕ → ℕ → Text
decimal zero v = []
decimal (suc fuel) v =
    let rest = decimal fuel (v / 10) in
    if ltb v 10 then (b'0' + v) ∷ [] else rest ++ (b'0' + v % 10) ∷ []

unfoldable pub padded : ℕ → Text → Text
padded width s = replicate (width - length s) b'0' ++ s

unfoldable pub format_code : ℕ → ℕ → Text
unfolding decimal padded
format_code value width = padded width (decimal (suc value) value)

unfoldable pub is_ascii_digit : ℕ → Bool
is_ascii_digit c = leb b'0' c && leb c b'9'

-- The counters that `-SKEW..=SKEW` gives, none below 0.
abbrev counters : ℕ → List ℕ
counters base = (base - 1) ∷ base ∷ (base + 1) ∷ []

abbrev pub typed : Text → Text
typed code = remove_char b' ' (trim code)

-- The test on bytes is one on characters: one beyond ASCII fails, as its bytes do.
unfoldable pub is_code : Text → Bool
unfolding byte_len is_ascii_digit
is_code code = (byte_len code == digits) && all is_ascii_digit code

module _ (x : TotpLib) where
  unfoldable pub hotp : Bytes → ℕ → ℕ → ℕ
  unfolding be_bytes
  hotp secret counter width =
      let hash = x.hmac secret (be_bytes 8 counter) in
      truncated hash (digest_offset hash) % 10 ^ width

  unfoldable pub totp_at : Bytes → ℕ → ℕ → ℕ
  unfolding hotp
  totp_at secret unix_time width = hotp secret (unix_time / time_step) width

  abbrev pub step_code : Bytes → ℕ → Text
  step_code secret counter = format_code (hotp secret counter digits) digits

  unfoldable pub current_code : Bytes → ℕ → Text
  unfolding totp_at format_code
  current_code secret now = format_code (totp_at secret now digits) digits

  unfoldable pub verify : Bytes → ℕ → Text → Bool
  unfolding is_code hotp format_code text_eq
  verify secret now code =
      is_code (typed code)
      && any (λ counter. text_eq (step_code secret counter) (typed code))
          (counters (now / time_step))

  -- The random nonce is an argument; `none` where the system has no randomness.
  unfoldable pub encrypt_secret : Option Bytes → Bytes → Option Text
  encrypt_secret random_nonce secret = do
    nonce ← random_nonce
    ciphertext ← x.encrypt nonce secret
    some (x.encode64 (nonce ++ ciphertext))

  abbrev pub open_blob : Bytes → Option Bytes
  open_blob blob =
      if ltb (length blob) (nonce_len + tag_len)
      then none
      else x.decrypt (take nonce_len blob) (drop nonce_len blob)

  unfoldable pub decrypt_secret : Text → Option Bytes
  decrypt_secret stored = do blob ← x.decode64 stored; open_blob blob

  unfoldable pub hash_recovery_code : Text → Text
  unfolding encode
  hash_recovery_code code = x.sha256_hex (encode (x.to_lowercase (typed code)))

-- A dash in the middle of ten random characters; one code for each draw.
abbrev dashed : Text → Text
dashed raw = take 5 raw ++ b'-' ∷ drop 5 raw

abbrev recovery_code_count : ℕ
recovery_code_count = 10

unfoldable pub generate_recovery_codes : List Text → List Text
generate_recovery_codes draws = map dashed (take recovery_code_count draws)
