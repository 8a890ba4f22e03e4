-- ===== src/Links/Validate.antt =====
-- The validation of src/site/links.rs: destinations and aliases, and why they are refused.
use klappstuhl_me.Prelude.{
  ℕ, Bool, false, not, ◌&&◌, ◌||◌, Option, none, some, List, [], ◌∷◌, ◌++◌, if◌then◌else◌, ltb, leb,
  ◌==◌, any, all, is_some,
}
use klappstuhl_me.Text.{
  Text, codes, text_eq, trim, is_empty, byte_len, to_ascii_lowercase, strip_prefix,
}

abbrev pub max_code_len : ℕ
max_code_len = 64

abbrev max_url_len : ℕ
max_url_len = 2048

abbrev reserved_codes : List Text
reserved_codes =
    codes "r"
    ∷ codes "links"
    ∷ codes "images"
    ∷ codes "gallery"
    ∷ codes "api"
    ∷ codes "admin"
    ∷ codes "login"
    ∷ codes "logout"
    ∷ codes "signup"
    ∷ codes "register"
    ∷ codes "account"
    ∷ codes "percy"
    ∷ codes "status"
    ∷ codes "projects"
    ∷ codes "static"
    ∷ codes "m"
    ∷ codes "p"
    ∷ codes "ws"
    ∷ codes "auth"
    ∷ codes "sw.js"
    ∷ codes "robots.txt"
    ∷ codes "favicon.ico"
    ∷ codes "site.webmanifest"
    ∷ []

pub data LinkError : Type 0 where
  url_required : LinkError
  url_too_long : LinkError
  url_scheme : LinkError
  url_host : LinkError
  alias_empty : LinkError
  alias_too_long : LinkError
  alias_characters : LinkError
  alias_reserved : LinkError
  limit_reached : LinkError
  taken : LinkError
  database : LinkError
  not_yours : LinkError

pub data Outcome (A : Type 0) : Type 0 where
  done : A → Outcome A
  failed : LinkError → Outcome A

-- `s.contains(p)`.
unfoldable contains : Text → Text → Bool
unfolding strip_prefix
contains p [] = is_some (strip_prefix p [])
contains p (c ∷ s) = is_some (strip_prefix p (c ∷ s)) || contains p s

abbrev first_some : Option Text → Option Text → Option Text
first_some none o = o
first_some (some t) o = some t

unfoldable pub rest_of_url : Text → Option Text
unfolding strip_prefix to_ascii_lowercase
rest_of_url url =
    first_some (strip_prefix (codes "http://") (to_ascii_lowercase url))
      (strip_prefix (codes "https://") (to_ascii_lowercase url))

abbrev has_host : Text → Bool
has_host [] = false
has_host (c ∷ s) = not (c == b'/')

abbrev pub target_of : Text → Option Text → Outcome Text
target_of url none = failed url_scheme
target_of url (some rest) = if has_host rest then done url else failed url_host

abbrev sized_target : Text → Outcome Text
sized_target url =
    if ltb max_url_len (byte_len url) then failed url_too_long else target_of url (rest_of_url url)

unfoldable pub with_scheme : Text → Text
unfolding contains
with_scheme s = if contains (codes "://") s then s else codes "https://" ++ s

unfoldable pub normalize_target : Text → Outcome Text
unfolding trim
normalize_target raw =
    if is_empty (trim raw) then failed url_required else sized_target (with_scheme (trim raw))

unfoldable pub is_code_char : ℕ → Bool
is_code_char c =
    (leb b'a' c && leb c b'z')
    || (leb b'A' c && leb c b'Z')
    || (leb b'0' c && leb c b'9')
    || (c == b'-')
    || (c == b'_')

unfoldable pub is_reserved_code : Text → Bool
unfolding text_eq to_ascii_lowercase
is_reserved_code code = any (text_eq (to_ascii_lowercase code)) reserved_codes

abbrev checked_code : Text → Outcome Text
checked_code code =
    if is_empty code
    then failed alias_empty
    else if ltb max_code_len (byte_len code)
    then failed alias_too_long
    else if not (all is_code_char code)
    then failed alias_characters
    else if is_reserved_code code
    then failed alias_reserved
    else done code

unfoldable pub validate_code : Text → Outcome Text
unfolding trim
validate_code raw = checked_code (trim raw)
