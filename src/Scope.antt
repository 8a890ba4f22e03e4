-- ===== src/Scope.antt =====
-- Sessions and the scopes of API keys: `Session` and `Scope` of src/core/models.rs, and
-- `generate_api_key` of src/site/account/api_keys.rs on the table of sessions.
pub mod Laws
use klappstuhl_me.Prelude.{
  ℕ, ◌+◌, ◌*◌, Bool, true, false, not, ◌&&◌, ◌||◌, Option, none, some, List, [], ◌∷◌, ◌++◌, map,
  if◌then◌else◌, ltb, ◌==◌, any, find, keep_if,
}
use klappstuhl_me.Text.{Text, codes, text_eq, trim, is_empty}
use klappstuhl_me.Account.{Account, is_admin}

pub data Scope : Type 0 where
  images_read : Scope
  images_write : Scope
  guild_images : Scope
  links_read : Scope
  links_write : Scope
  pastes_read : Scope
  pastes_write : Scope

unfoldable pub as_str : Scope → Text
as_str images_read = codes "images:read"
as_str images_write = codes "images:write"
as_str guild_images = codes "images:guild"
as_str links_read = codes "links:read"
as_str links_write = codes "links:write"
as_str pastes_read = codes "pastes:read"
as_str pastes_write = codes "pastes:write"

unfoldable pub scope_eq : Scope → Scope → Bool
unfolding as_str text_eq
scope_eq a b = text_eq (as_str a) (as_str b)

abbrev all_scopes : List Scope
all_scopes =
    images_read ∷ images_write ∷ guild_images ∷ links_read ∷ links_write ∷ pastes_read
    ∷ pastes_write ∷ []

-- The scope of this name, if there is one.
unfoldable pub from_str : Text → Option Scope
unfolding as_str text_eq
from_str s = find (λ scope. text_eq s (as_str scope)) all_scopes

unfoldable pub requires_admin : Scope → Bool
requires_admin guild_images = true
requires_admin _ = false

pub record Session : Type 0 where
  pub id : Text
  pub account_id : ℕ
  pub created_at : ℕ
  pub description : Option Text
  pub api_key : Bool
  pub scopes : Text

-- The parts of a text between commas, of which there is at least one.
abbrev pub onto_first : ℕ → List Text → List Text
onto_first c [] = (c ∷ []) ∷ []
onto_first c (part ∷ parts) = (c ∷ part) ∷ parts

unfoldable pub split_commas : Text → List Text
split_commas [] = [] ∷ []
split_commas (c ∷ s) =
    let rest = split_commas s in if c == b',' then [] ∷ rest else onto_first c rest

unfoldable pub join_commas : List Text → Text
join_commas [] = []
join_commas (s ∷ []) = s
join_commas (s ∷ t ∷ ts) = s ++ b',' ∷ join_commas (t ∷ ts)

abbrev and_scope : Option Scope → List Scope → List Scope
and_scope none scopes = scopes
and_scope (some s) scopes = s ∷ scopes

unfoldable pub known_scopes : List Text → List Scope
unfolding from_str
known_scopes [] = []
known_scopes (s ∷ ss) = and_scope (from_str s) (known_scopes ss)

unfoldable pub scope_set : Session → List Scope
unfolding split_commas trim known_scopes
scope_set s = known_scopes (map trim (split_commas s.scopes))

unfoldable pub has_scope : Session → Scope → Bool
unfolding scope_set scope_eq
has_scope s needed =
    if not s.api_key
    then true
    else if is_empty s.scopes
    then true
    else any (scope_eq needed) (scope_set s)

-- The scopes that a request for a key is granted.
unfoldable pub granted : Bool → List Text → List Scope
unfolding known_scopes requires_admin
granted admin names = keep_if (λ s. admin || not (requires_admin s)) (known_scopes names)

abbrev pub with_scopes : ℕ → ℕ → Text → List Scope → Session
with_scopes now account_id key scopes = record {
  id = key;
  account_id = account_id;
  created_at = now;
  description = some (codes "API Key");
  api_key = true;
  scopes = join_commas (map as_str scopes);
}

abbrev pub is_key_of : ℕ → Session → Bool
is_key_of account_id s = (s.account_id == account_id) && s.api_key

-- The table after `DELETE`; what the cache forgets is in the module `Sessions`.
abbrev pub without_keys_of : ℕ → List Session → List Session
without_keys_of account_id sessions = keep_if (λ s. not (is_key_of account_id s)) sessions

-- The `DELETE` of the keys, which `new` leaves out; a failure of it is ignored.
abbrev revoked : Bool → Bool → ℕ → List Session → List Session
revoked up new account_id sessions =
    if new then sessions else if up then without_keys_of account_id sessions else sessions

-- The handler: `key` is the fresh token, and the answer where the `INSERT` stores it.
unfoldable pub generate_api_key :
    (ℕ → Bool) → ℕ → Account → Bool → List Text → Text → List Session → List Session × Option Text
unfolding granted is_admin
generate_api_key up now account new names key sessions =
    let kept = revoked (up 0) new account.id sessions in
    if up 1
    then (with_scopes now account.id key (granted (is_admin account) names) ∷ kept, some key)
    else (kept, none)
