-- ===== src/Redirect.antt =====
-- src/core/utils.rs: where a login may send its caller, and the encoding of a query value.
pub mod Parts
pub mod Laws
use klappstuhl_me.Prelude.{
  ℕ, ◌+◌, ◌-◌, ◌/◌, ◌%◌, Bool, true, false, not, ◌&&◌, ◌||◌, Option, none, some, List, [], ◌∷◌,
  ◌++◌, if◌then◌else◌, ltb, leb, ◌==◌, is_some,
}
use klappstuhl_me.Text.{
  Text, Bytes, codes, text_eq, trim, is_empty, strip_prefix, contains_char, before, encode,
}

unfoldable pub starts_with : Text → Text → Bool
unfolding strip_prefix
starts_with p s = is_some (strip_prefix p s)

-- `s.ends_with(p)`, with `p` first.
unfoldable pub ends_with : Text → Text → Bool
unfolding text_eq
ends_with p [] = text_eq p []
ends_with p (c ∷ s) = text_eq p (c ∷ s) || ends_with p s

abbrev or_option : Option Text → Option Text → Option Text
or_option none o = o
or_option (some t) o = some t

abbrev pub http : Text
http = codes "http://"

abbrev pub https : Text
https = codes "https://"

unfoldable pub without_scheme : Text → Option Text
unfolding strip_prefix
without_scheme n = or_option (strip_prefix http n) (strip_prefix https n)

-- What stands before the first slash, and in it before the first colon.
unfoldable pub host_of : Text → Text
unfolding before
host_of url = before b':' (before b'/' url)

unfoldable pub is_trusted_host : Text → Text → Bool
unfolding text_eq ends_with
is_trusted_host domain host = text_eq host domain || ends_with (b'.' ∷ domain) host

abbrev is_trusted_rest : Text → Option Text → Bool
is_trusted_rest domain none = false
is_trusted_rest domain (some url) = is_trusted_host domain (host_of url)

abbrev pub is_trusted_url : Option Text → Text → Bool
is_trusted_url none n = false
is_trusted_url (some domain) n = is_trusted_rest domain (without_scheme n)

unfoldable pub is_bare_path : Text → Bool
unfolding starts_with
is_bare_path n = starts_with (codes "/") n && not (starts_with (codes "//") n)

abbrev pub checked : Text → Option Text → Option Text
checked n trusted_domain =
    if is_empty n
    then none
    else if contains_char b'\\' n
    then none
    else if is_bare_path n || is_trusted_url trusted_domain n
    then some n
    else none

unfoldable pub safe_next_for_domain : Option Text → Option Text → Option Text
unfolding trim
safe_next_for_domain none trusted_domain = none
safe_next_for_domain (some next) trusted_domain = checked (trim next) trusted_domain

unfoldable pub safe_next : Option Text → Option Text
unfolding safe_next_for_domain
safe_next next = safe_next_for_domain next none

unfoldable is_unreserved : ℕ → Bool
is_unreserved b =
    (leb b'A' b && leb b b'Z')
    || (leb b'a' b && leb b b'z')
    || (leb b'0' b && leb b b'9')
    || (b == b'-')
    || (b == b'_')
    || (b == b'.')
    || (b == b'~')

-- One uppercase hexadecimal digit.
abbrev upper_hex : ℕ → ℕ
upper_hex d = if ltb d 10 then b'0' + d else b'A' + d - 10

unfoldable urlencode_bytes : Bytes → Text
unfolding is_unreserved
urlencode_bytes [] = []
urlencode_bytes (b ∷ bs) =
    let rest = urlencode_bytes bs in
    if is_unreserved b then b ∷ rest else b'%' ∷ upper_hex (b / 16 % 16) ∷ upper_hex (b % 16) ∷ rest

unfoldable pub urlencode : Text → Text
unfolding urlencode_bytes encode
urlencode s = urlencode_bytes (encode s)
