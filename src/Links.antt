-- ===== src/Links.antt =====
-- src/site/links.rs: the short links. The clock of `updated_at` and the flashes are left out.
pub mod Validate
pub mod Laws
use klappstuhl_me.Prelude.{
  ℕ, suc, ◌+◌, Bool, true, false, not, ◌&&◌, ◌||◌, Option, none, some, List, [], ◌∷◌, ◌++◌, map,
  if◌then◌else◌, ltb, leb, ◌==◌, any, all, find, keep_if, length, is_some, take, zero,
}
use klappstuhl_me.Text.{
  Text, codes, text_eq, trim, is_empty, byte_len, to_ascii_lowercase, strip_prefix, before,
}
use klappstuhl_me.Account.{Account, is_admin}
use klappstuhl_me.Links.Validate.{
  LinkError, limit_reached, taken, database, not_yours, Outcome, done, failed, normalize_target,
  validate_code,
}

abbrev pub free_link_limit : ℕ
free_link_limit = 10

abbrev pub auto_code_attempts : ℕ
auto_code_attempts = 6

pub record ShortLink : Type 0 where
  pub id : ℕ
  pub code : Text
  pub target_url : Text
  pub account_id : ℕ
  pub clicks : ℕ

pub record Links : Type 0 where
  pub links : List ShortLink
  pub next_id : ℕ

abbrev pub has_code : Text → ShortLink → Bool
has_code code l = text_eq l.code code

abbrev pub code_used : Text → List ShortLink → Bool
code_used code links = any (has_code code) links

abbrev pub inserted : Text → Text → ℕ → Links → Links
inserted code target account_id n = record {
  links =
      record {
        id = n.next_id;
        code = code;
        target_url = target;
        account_id = account_id;
        clicks = 0;
      }
      ∷ n.links;
  next_id = suc n.next_id;
}

-- The statements of an operation after its first one.
abbrev pub after_first : (ℕ → Bool) → ℕ → Bool
after_first up k = up (suc k)

-- The loop of `insert_link` with its codes: the first, then a fresh one after each collision. `up k`
-- says whether the database answers the k-th statement.
unfoldable pub insert_first_free : (ℕ → Bool) → Text → ℕ → List Text → Links → Links × Outcome Text
insert_first_free up target account_id [] n = (n, failed taken)
insert_first_free up target account_id (code ∷ others) n =
    let rest = insert_first_free (after_first up) target account_id others n in
    if not (up 0)
    then (n, failed database)
    else if code_used code n.links
    then rest
    else (inserted code target account_id n, done code)

-- `fresh` are the codes that the generator gives when asked again, at least five.
unfoldable pub insert_link :
    (ℕ → Bool) → Text → List Text → Text → ℕ → Bool → Links → Links × Outcome Text
unfolding insert_first_free
insert_link up code fresh target account_id custom_alias n =
    insert_first_free up target account_id
      (if custom_alias then code ∷ [] else take auto_code_attempts (code ∷ fresh)) n

-- Zero where the database does not answer.
unfoldable pub count_links : Bool → ℕ → Links → ℕ
count_links up account_id n =
    if up then length (keep_if (λ (l : ShortLink). l.account_id == account_id) n.links) else 0

abbrev pub and_insert :
    (ℕ → Bool) → List Text → ℕ → Bool → Links → Outcome Text → Outcome Text → Links × Outcome Text
and_insert up fresh account_id custom n (failed e) code = (n, failed e)
and_insert up fresh account_id custom n (done target) (failed e) = (n, failed e)
and_insert up fresh account_id custom n (done target) (done code) =
    insert_link up code fresh target account_id custom n

abbrev pub chosen_code : Text → Text → Outcome Text
chosen_code generated form_code =
    if not (is_empty (trim form_code)) then validate_code form_code else done generated

-- The count of the links, and then one `INSERT` for each attempt.
unfoldable pub create_link :
    (ℕ → Bool) → Account → Text → Text → Text → List Text → Links → Links × Outcome Text
unfolding count_links is_admin trim
create_link up account target_url form_code generated fresh n =
    if not (is_admin account) && leb free_link_limit (count_links (up 0) account.id n)
    then (n, failed limit_reached)
    else and_insert (after_first up) fresh account.id (not (is_empty (trim form_code))) n
        (normalize_target target_url) (chosen_code generated form_code)

abbrev link_of : ℕ → List ShortLink → Option ShortLink
link_of id links = find (λ (l : ShortLink). l.id == id) links

abbrev if_owned : Account → Option ShortLink → Option ShortLink
if_owned account none = none
if_owned account (some l) =
    if (l.account_id == account.id) || is_admin account then some l else none

unfoldable owned_link : Bool → ℕ → Account → Links → Option ShortLink
unfolding is_admin
owned_link up id account n = if_owned account (if up then link_of id n.links else none)

abbrev used_by_other : ℕ → Text → List ShortLink → Bool
used_by_other id code links = any (λ l. has_code code l && not (l.id == id)) links

abbrev rewritten : ℕ → Text → Text → List ShortLink → List ShortLink
rewritten id code target links =
    map (λ (l : ShortLink). if l.id == id then record l { code = code; target_url = target } else l)
      links

abbrev update_link : Bool → ℕ → Links → Outcome Text → Outcome Text → Links × Outcome Text
update_link up id n (failed e) code = (n, failed e)
update_link up id n (done target) (failed e) = (n, failed e)
update_link up id n (done target) (done code) =
    if not up
    then (n, failed database)
    else if used_by_other id code n.links
    then (n, failed taken)
    else (record n { links = rewritten id code target n.links }, done code)

abbrev edit_owned : Bool → Text → Text → Links → Option ShortLink → Links × Outcome Text
edit_owned up target_url form_code n none = (n, failed not_yours)
edit_owned up target_url form_code n (some l) =
    update_link up l.id n (normalize_target target_url) (validate_code form_code)

unfoldable edit_link : (ℕ → Bool) → Account → ℕ → Text → Text → Links → Links × Outcome Text
unfolding owned_link
edit_link up account id target_url form_code n =
    edit_owned (up 1) target_url form_code n (owned_link (up 0) id account n)

-- The answer does not say whether the `DELETE` went through.
abbrev pub without : Bool → Links → Option ShortLink → Links × Outcome Text
without up n none = (n, failed not_yours)
without up n (some l) = (
  if up then record n { links = keep_if (λ (k : ShortLink). not (k.id == l.id)) n.links } else n,
  done l.code,
)

unfoldable delete_link : (ℕ → Bool) → Account → ℕ → Links → Links × Outcome Text
unfolding owned_link
delete_link up account id n = without (up 1) n (owned_link (up 0) id account n)

abbrev counted : ℕ → Links → Links
counted id n = record n {
  links =
      map (λ (k : ShortLink). if k.id == id then record k { clicks = suc k.clicks } else k) n.links;
}

abbrev clicked : Bool → Links → Option ShortLink → Links × Option Text
clicked up n none = (n, none)
clicked up n (some l) = (if up then counted l.id n else n, some l.target_url)

-- The address that a code leads to, its click counted where the database answers.
unfoldable pub resolve_and_redirect : (ℕ → Bool) → Text → Links → Links × Option Text
unfolding text_eq
resolve_and_redirect up code n =
    clicked (up 1) n (if up 0 then find (has_code code) n.links else none)

-- Hosts are compared without their ports and without regard to case.
unfoldable host_eq : Text → Text → Bool
unfolding text_eq to_ascii_lowercase before
host_eq a b = text_eq (to_ascii_lowercase (before b':' a)) (to_ascii_lowercase (before b':' b))
