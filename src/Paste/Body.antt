-- ===== src/Paste/Body.antt =====
-- src/site/paste/mod.rs: what a reader may see of a body. A cookie is its name and value.
pub mod RoundTrip
use klappstuhl_me.Prelude.{
  ℕ, Bool, true, false, not, ◌&&◌, Option, none, some, List, [], ◌∷◌, ◌++◌, if◌then◌else◌, find,
}
use klappstuhl_me.Text.{Text, Bytes, codes, text_eq, from_utf8}
use klappstuhl_me.Paste.Row.{Paste, is_encrypted, text}
use klappstuhl_me.Paste.External.{External}
use klappstuhl_me.Paste.Crypto.{verify_unlock, open_with_key}

pub data Body : Type 0 where
  plain : Text → Body
  locked : Body
  sealed : Body
  undecodable : Body

abbrev Cookies : Type 0
Cookies = List (Text × Text)

-- `cookie_name` of src/site/paste/crypto.rs.
unfoldable pub cookie_name : Text → Text
cookie_name id = codes "paste_unlock_" ++ id

abbrev value_of : Option (Text × Text) → Option Text
value_of none = none
value_of (some c) = some c.1

unfoldable pub unlock_cookie : Cookies → Text → Option Text
unlock_cookie cookies id = value_of (find (λ c. text_eq c.0 (cookie_name id)) cookies)

abbrev decoded : Option Text → Body
decoded none = undecodable
decoded (some t) = plain t

abbrev pub opened : Option Bytes → Body
opened none = locked
opened (some bytes) = decoded (from_utf8 bytes)

abbrev opened_under : External → Bytes → Bytes → Option Bytes → Body
opened_under x nonce content none = locked
opened_under x nonce content (some key) = opened (open_with_key x key nonce content)

module _ (x : External) (now : ℕ) where
  abbrev pub unlocked : Paste → Option Bytes → Option Text → Body
  unlocked paste none token = locked
  unlocked paste (some nonce) none = locked
  unlocked paste (some nonce) (some token) =
      opened_under x nonce paste.content (verify_unlock x now paste.id token)

  unfoldable pub resolve_body : Paste → Cookies → Bool → Body
  resolve_body paste cookies for_reveal =
      if paste.burn_after_read && not for_reveal
      then sealed
      else if is_encrypted paste
      then unlocked paste paste.enc_nonce (unlock_cookie cookies paste.id)
      else decoded (text paste)
