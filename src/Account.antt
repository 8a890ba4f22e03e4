-- ===== src/Account.antt =====
-- The account of src/core/models.rs and the checks on it.
use Prim.Native.Nat.{bit_and}
use klappstuhl_me.Prelude.{ℕ, Bool, not, ◌&&◌, ◌||◌, Option, leb, ◌==◌, all, is_some}
use klappstuhl_me.Text.{Text, codes, text_eq, is_empty, byte_len}

pub record Account : Type 0 where
  pub id : ℕ
  pub name : Text
  pub password : Text
  pub flags : ℕ
  pub totp_secret : Option Text
  pub totp_enabled : Bool
  pub discord_id : Option Text

-- `AccountFlags`: bit 0 is the administrator's.
abbrev pub admin : ℕ
admin = 1

pub has_flag : ℕ → ℕ → Bool
has_flag flags val = bit_and flags val == val

unfoldable pub is_admin : Account → Bool
unfolding has_flag
is_admin a = has_flag a.flags admin

unfoldable pub has_totp : Account → Bool
has_totp a = a.totp_enabled && is_some a.totp_secret

abbrev pub no_password_sentinel : Text
no_password_sentinel = codes "!"

unfoldable pub has_password : Account → Bool
unfolding text_eq
has_password a = not (is_empty a.password) && not (text_eq a.password no_password_sentinel)

unfoldable pub is_username_char : ℕ → Bool
is_username_char c =
    (leb b'a' c && leb c b'z')
    || (leb b'0' c && leb c b'9')
    || (c == b'.')
    || (c == b'_')
    || (c == b'-')

-- The source tests the bytes: a character beyond ASCII fails, as its bytes do.
unfoldable pub is_valid_username : Text → Bool
unfolding is_username_char byte_len
is_valid_username s = leb 3 (byte_len s) && leb (byte_len s) 32 && all is_username_char s
