-- ===== src/Paste/Row.antt =====
-- `Visibility`, `Paste` and `PasteRevision` of src/core/models.rs. Times are in seconds, the
-- resolution of SQLite's `datetime`.
use klappstuhl_me.Prelude.{
  ℕ, ◌≡◌, refl, Bool, false, ◌&&◌, ◌||◌, Option, none, some, if◌then◌else◌, ◌==◌, is_some,
}
use klappstuhl_me.Text.{Text, Bytes, codes, text_eq, trim, to_ascii_lowercase, from_utf8}
use klappstuhl_me.Account.{Account, is_admin}

pub data Visibility : Type 0 where
  public unlisted private : Visibility

unfoldable pub as_str : Visibility → Text
as_str public = codes "public"
as_str unlisted = codes "unlisted"
as_str private = codes "private"

unfoldable pub parse : Text → Visibility
unfolding text_eq trim to_ascii_lowercase
parse raw =
    let s = to_ascii_lowercase (trim raw) in
    if text_eq s (codes "public")
    then public
    else if text_eq s (codes "private")
    then private
    else unlisted

-- What is stored is read back as the same visibility.
pub parse-as_str : (v : Visibility) → parse (as_str v) ≡ v
unfolding parse as_str
parse-as_str public = refl
parse-as_str unlisted = refl
parse-as_str private = refl

pub record Paste : Type 0 where
  pub id : Text
  pub account_id : Option ℕ
  pub title : Option Text
  pub content : Bytes
  pub language : Option Text
  pub visibility : Visibility
  pub burn_after_read : Bool
  pub enc_salt : Option Bytes
  pub enc_nonce : Option Bytes
  pub edit_token_hash : Option Text
  pub size_bytes : ℕ
  pub fork_of : Option Text
  pub creator_ip : Option Text
  pub views : ℕ
  pub created_at : ℕ
  pub updated_at : Option ℕ
  pub expires_at : Option ℕ

unfoldable pub is_encrypted : Paste → Bool
is_encrypted p = is_some p.enc_salt && is_some p.enc_nonce

unfoldable pub text : Paste → Option Text
unfolding is_encrypted
text p = if is_encrypted p then none else from_utf8 p.content

abbrev pub owner_is : Option ℕ → ℕ → Bool
owner_is none id = false
owner_is (some owner) id = owner == id

unfoldable pub owned_by : Paste → Account → Bool
owned_by p account = owner_is p.account_id account.id || is_admin account

pub record PasteRevision : Type 0 where
  pub id : ℕ
  pub paste_id : Text
  pub content : Bytes
  pub title : Option Text
  pub language : Option Text
  pub created_at : ℕ
