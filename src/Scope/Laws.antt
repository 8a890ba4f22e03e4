-- ===== src/Scope/Laws.antt =====
-- What a key is granted comes back from its row, and what that lets it do.
use klappstuhl_me.Prelude.{
  ℕ, ◌≡◌, refl, sym, ap, ◌∙◌, true, false, not, some, List, [], ◌∷◌, ◌++◌, map, ◌==◌, any, keep_if,
  Bool-cases, inl, inr,
}
use klappstuhl_me.Text.{Text, trim, is_empty, contains_char}
use klappstuhl_me.Scope.{
  Scope, images_read, images_write, guild_images, links_read, links_write, pastes_read,
  pastes_write, as_str, from_str, scope_eq, requires_admin, onto_first, split_commas, join_commas,
  known_scopes, scope_set, has_scope, granted, with_scopes,
}

split_part :
    (s t : Text) → contains_char b',' s ≡ false → split_commas (s ++ b',' ∷ t) ≡ s ∷ split_commas t
unfolding split_commas contains_char
split_part [] t h = refl
split_part (c ∷ s) t h = elim (Bool-cases (c == b',')) [
  | inl hit ↦ cc (rw hit at h)
  | inr miss ↦ rw miss (ap (onto_first c) (split_part s t (rw miss at h)))
]

split_last : (s : Text) → contains_char b',' s ≡ false → split_commas s ≡ s ∷ []
unfolding split_commas contains_char
split_last [] h = refl
split_last (c ∷ s) h = elim (Bool-cases (c == b',')) [
  | inl hit ↦ cc (rw hit at h)
  | inr miss ↦ rw miss (ap (onto_first c) (split_last s (rw miss at h)))
]

as_str_plain : (s : Scope) → contains_char b',' (as_str s) ≡ false
unfolding as_str contains_char
as_str_plain images_read = refl
as_str_plain images_write = refl
as_str_plain guild_images = refl
as_str_plain links_read = refl
as_str_plain links_write = refl
as_str_plain pastes_read = refl
as_str_plain pastes_write = refl

-- A scope is read back from its name, also with blanks around it removed.
pub from_str-as_str : (s : Scope) → (from_str (as_str s) ≡ some s) × (trim (as_str s) ≡ as_str s)
unfolding as_str from_str trim
from_str-as_str images_read = (refl, refl)
from_str-as_str images_write = (refl, refl)
from_str-as_str guild_images = (refl, refl)
from_str-as_str links_read = (refl, refl)
from_str-as_str links_write = (refl, refl)
from_str-as_str pastes_read = (refl, refl)
from_str-as_str pastes_write = (refl, refl)

split_join :
    (s : Scope) (ss : List Scope)
    → split_commas (join_commas (map as_str (s ∷ ss))) ≡ map as_str (s ∷ ss)
unfolding join_commas
split_join s [] = split_last (as_str s) (as_str_plain s)
split_join s (r ∷ rs) =
    split_part (as_str s) _ (as_str_plain s) ∙ ap (λ parts. as_str s ∷ parts) (split_join r rs)

known_names : (ss : List Scope) → known_scopes (map trim (map as_str ss)) ≡ ss
unfolding known_scopes
known_names [] = refl
known_names (s ∷ ss) = let (read, trimmed) = from_str-as_str s in rw (trimmed, read, known_names ss)

-- The scopes in the row of a key that was granted any are the granted ones, in order.
pub scope_set-with_scopes :
    (now account_id : ℕ) (key : Text) (s : Scope) (ss : List Scope)
    → scope_set (with_scopes now account_id key (s ∷ ss)) ≡ s ∷ ss
unfolding scope_set
scope_set-with_scopes now account_id key s ss = rw (split_join s ss) (known_names (s ∷ ss))

as_str_filled :
    (s : Scope) (t : Text) → (is_empty (as_str s) ≡ false) × (is_empty (as_str s ++ t) ≡ false)
unfolding as_str
as_str_filled images_read t = (refl, refl)
as_str_filled images_write t = (refl, refl)
as_str_filled guild_images t = (refl, refl)
as_str_filled links_read t = (refl, refl)
as_str_filled links_write t = (refl, refl)
as_str_filled pastes_read t = (refl, refl)
as_str_filled pastes_write t = (refl, refl)

nonempty_scopes :
    (s : Scope) (ss : List Scope) → is_empty (join_commas (map as_str (s ∷ ss))) ≡ false
unfolding join_commas
nonempty_scopes s [] = (as_str_filled s []).0
nonempty_scopes s (r ∷ rs) = (as_str_filled s _).1

common : (s : Scope) → requires_admin s ≡ false → scope_eq guild_images s ≡ false
unfolding requires_admin scope_eq
common images_read h = refl
common images_write h = refl
common guild_images h = cc
common links_read h = refl
common links_write h = refl
common pastes_read h = refl
common pastes_write h = refl

granted_common :
    (ss : List Scope)
    → any (scope_eq guild_images) (keep_if (λ s. not (requires_admin s)) ss) ≡ false
granted_common [] = refl
granted_common (s ∷ ss) = elim (Bool-cases (requires_admin s)) [
  | inl privileged ↦ rw privileged (granted_common ss)
  | inr plain ↦ rw (plain, common s plain) (granted_common ss)
]

granted_common_of : (names : List Text) → any (scope_eq guild_images) (granted false names) ≡ false
unfolding granted
granted_common_of names = granted_common (known_scopes names)

-- The key of an account that is no admin lacks the guild scope if it was granted any scope; but if
-- it was granted none, as when only privileged or unknown names were asked for, it has every scope.
pub has_scope-granted :
    (now account_id : ℕ) (key : Text) (names : List Text)
    → ((s : Scope) (ss : List Scope)
        → granted false names ≡ s ∷ ss
        → has_scope (with_scopes now account_id key (granted false names)) guild_images ≡ false)
      × (granted false names ≡ []
          → (needed : Scope)
          → has_scope (with_scopes now account_id key (granted false names)) needed ≡ true)
unfolding has_scope
has_scope-granted now account_id key names = (
  λ s ss some_granted.
      rw (some_granted, nonempty_scopes s ss, scope_set-with_scopes now account_id key s ss)
        (ap (any (scope_eq guild_images)) (sym some_granted) ∙ granted_common_of names),
  λ no_scope needed. rw no_scope (unfold join_commas in refl),
)
