-- ===== src/Paste/Validate.antt =====
-- src/site/paste/service.rs: the validation helpers.
pub mod Laws
use klappstuhl_me.Prelude.{
  ℕ, ◌+◌, ◌*◌, min, Bool, true, false, not, ◌&&◌, ◌||◌, Option, none, some, List, [], ◌∷◌, map,
  if◌then◌else◌, ltb, leb, ◌==◌, length, keep_if,
}
use klappstuhl_me.Prelude.Int.{ℤ, positive, at_least_one}
use klappstuhl_me.Text.{Text, codes, text_eq, trim, to_ascii_lowercase, is_empty}
use klappstuhl_me.Paste.External.{External, Finding}
use klappstuhl_me.Paste.Error.{
  PasteError, title_too_long, secrets_found, secrets_refused, Result, ok, err, ◌>>=◌,
}

abbrev pub max_title_len : ℕ
max_title_len = 120

abbrev pub day_secs : ℕ
day_secs = 24 * 60 * 60

-- 365 days.
abbrev pub max_ttl_secs : ℕ
max_ttl_secs = 365 * day_secs

-- `title.map(trim).filter(|t| !t.is_empty())`.
abbrev pub trimmed : Option Text → Option Text
trimmed none = none
trimmed (some t) = let s = trim t in if is_empty s then none else some s

abbrev title_fits : Option Text → Result (Option Text)
title_fits none = ok none
title_fits (some t) = if ltb max_title_len (length t) then err title_too_long else ok (some t)

-- A title is counted in characters.
unfoldable pub normalize_title : Option Text → Result (Option Text)
unfolding trim
normalize_title title = title_fits (trimmed title)

abbrev plain_dropped : Text → Option Text
plain_dropped l = if is_empty l || text_eq l (codes "plain") then none else some l

unfoldable pub normalize_language : Option Text → Option Text
unfolding trim to_ascii_lowercase text_eq
normalize_language none = none
normalize_language (some l) = plain_dropped (to_ascii_lowercase (trim l))

-- The seconds to live: the requested ones that are positive, under the cap for strangers.
abbrev pub lifetime : Option ℕ → Option ℕ → Option ℕ
lifetime (some requested) (some cap) = some (min requested cap)
lifetime (some requested) none = some (min requested max_ttl_secs)
lifetime none (some cap) = some cap
lifetime none none = none

abbrev pub requested_secs : Option ℤ → Option ℕ
requested_secs none = none
requested_secs (some s) = positive s

abbrev pub anonymous_cap : Bool → ℤ → Option ℕ
anonymous_cap anonymous ttl_days =
    if anonymous then some (at_least_one ttl_days * day_secs) else none

abbrev pub after : ℕ → Option ℕ → Option ℕ
after now none = none
after now (some secs) = some (now + min secs max_ttl_secs)

unfoldable pub resolve_expiry : ℕ → Option ℤ → Bool → ℤ → Option ℕ
resolve_expiry now expires_in anonymous anonymous_ttl_days =
    after now (lifetime (requested_secs expires_in) (anonymous_cap anonymous anonymous_ttl_days))

-- The order of `String`: by code points, as by bytes.
pub text_le : Text → Text → Bool
text_le [] t = true
text_le (c ∷ s) [] = false
text_le (c ∷ s) (d ∷ t) = ltb c d || ((c == d) && text_le s t)

insert_sorted : Text → List Text → List Text
unfolding text_le
insert_sorted r [] = r ∷ []
insert_sorted r (s ∷ ss) =
    let rest = insert_sorted r ss in if text_le r s then r ∷ s ∷ ss else s ∷ rest

sort : List Text → List Text
unfolding insert_sorted
sort [] = []
sort (r ∷ rs) = insert_sorted r (sort rs)

abbrev keep_new : Text → List Text → List Text
keep_new r [] = r ∷ []
keep_new r (s ∷ ss) = if text_eq r s then s ∷ ss else r ∷ s ∷ ss

-- `dedup`: one of each run of equal neighbours.
dedup : List Text → List Text
unfolding text_eq
dedup [] = []
dedup (r ∷ rs) = keep_new r (dedup rs)

unfoldable dedupe : List Text → List Text
unfolding sort dedup
dedupe rules = dedup (sort rules)

abbrev pub critical_rules : List Finding → List Text
critical_rules findings = map (λ f. f.rule) (keep_if (λ f. f.critical) findings)

abbrev secrets_verdict : Bool → List Text → Result (Unit {0})
secrets_verdict anonymous [] = ok tt
secrets_verdict anonymous (r ∷ rs) =
    if anonymous
    then err (secrets_refused (dedupe (r ∷ rs)))
    else err (secrets_found (dedupe (r ∷ rs)))

unfoldable pub check_for_secrets : External → Text → Bool → Bool → Result (Unit {0})
unfolding dedupe
check_for_secrets x content anonymous confirmed =
    if confirmed && not anonymous
    then ok tt
    else secrets_verdict anonymous (critical_rules (x.scan content))
