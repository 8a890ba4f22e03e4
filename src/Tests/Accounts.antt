-- ===== src/Tests/Accounts.antt =====
-- Examples on usernames, API keys, redirects and short links.
use klappstuhl_me.Prelude.{
  ℕ, ◌≡◌, ◌≢◌, refl, true, false, none, some, List, [], ◌∷◌, ◌⊎◌, any, arith,
}
use klappstuhl_me.Text.{Text, codes, text_eq, byte_len, trim, contains_char}
use klappstuhl_me.Account.{Account, is_valid_username}
use klappstuhl_me.Username.{
  Names, has_name, renamed, rejected, cooldown, claim, renaming, availability, cooldown_until,
  static_check, latest, is_reserved, is_held,
}
use klappstuhl_me.Username.Claims.{NamesUnique, Claimed, claim_cases}
use klappstuhl_me.Username.Holds.{availability-claim}
use klappstuhl_me.Scope.{Scope, guild_images, granted, has_scope, with_scopes}
use klappstuhl_me.Scope.Laws.{has_scope-granted}
use klappstuhl_me.Redirect.{safe_next_for_domain, without_scheme}
use klappstuhl_me.Redirect.Laws.{
  safe_next_for_domain-IsSafe, safe_next_for_domain-forged, browser_host,
}
use klappstuhl_me.Links.{Links, create_link}
use klappstuhl_me.Links.Laws.{Shortened, create_link_cases}
use klappstuhl_me.Links.Validate.{LinkError, Outcome, failed}
use klappstuhl_me.Redirect.Parts.{IsSafe}
use klappstuhl_me.Username.Protection.{Attempt, claims, claims-protected}
use klappstuhl_me.Tests.{alice, bob}

abbrev names : Names
names = record { accounts = alice ∷ bob ∷ []; changes = [] }

names_unique : NamesUnique names.accounts
unfolding text_eq
names_unique = ((λ h. refl, (λ h. cc, tt)), ((λ h. cc, (λ h. refl, tt)), tt))

claim_cases_example :
    (((claim true 100 1 (codes "carol") names).0 ≡ names)
      × ((o : Text) → (claim true 100 1 (codes "carol") names).1 ≢ renamed o))
    ⊎ ((a : Account) × Claimed 100 1 (codes "carol") names a
        × (claim true 100 1 (codes "carol") names
            ≡ (renaming 100 1 a.name (codes "carol") names, renamed a.name)))
claim_cases_example = claim_cases true 100 1 (codes "carol") names

abbrev after_claim : Names
after_claim = renaming 100 1 (codes "alice") (codes "carol") names

-- A claim of somebody else, and one for the old name, follow the rename.
abbrev attempts : List Attempt
attempts =
    record { up = true; at = 150; id = 2; name = codes "robert" }
    ∷ record { up = true; at = 160; id = 2; name = codes "alice" }
    ∷ []

claims-protected_example :
    (any (has_name (codes "alice")) (claims attempts after_claim).accounts ≡ false)
    × ((b : ℕ) (o : Text)
        → 1 ≢ b
        → (claim true 200 b (codes "alice") (claims attempts after_claim)).1 ≢ renamed o)
    × ((any_name o : Text)
        → (claim true 200 1 any_name (claims attempts after_claim)).1 ≢ renamed o)
unfolding claim cooldown_until is_held text_eq latest
claims-protected_example =
    claims-protected true true 100 1 (codes "carol") (codes "alice") names after_claim refl tt
      names_unique attempts (omega arith, (omega arith, tt)) 200 (omega arith)

availability-claim_example :
    (cooldown_until 100 1 names ≡ none
      → claim true 100 1 (codes "carol") names
        ≡ (renaming 100 1 (codes "alice") (codes "carol") names, renamed (codes "alice")))
    × ((until : ℕ)
        → cooldown_until 100 1 names ≡ some until
        → claim true 100 1 (codes "carol") names ≡ (names, rejected (cooldown until)))
unfolding availability static_check is_valid_username is_reserved text_eq latest byte_len
availability-claim_example = availability-claim 100 (codes "carol") alice names refl refl

has_scope-granted_example :
    ((s : Scope) (ss : List Scope)
      → granted false (codes "images:guild" ∷ []) ≡ s ∷ ss
      → has_scope
          (with_scopes 100 1 (codes "key") (granted false (codes "images:guild" ∷ [])))
          guild_images
        ≡ false)
    × (granted false (codes "images:guild" ∷ []) ≡ []
        → (needed : Scope)
        → has_scope
            (with_scopes 100 1 (codes "key") (granted false (codes "images:guild" ∷ [])))
            needed
          ≡ true)
has_scope-granted_example = has_scope-granted 100 1 (codes "key") (codes "images:guild" ∷ [])

safe_next_for_domain-IsSafe_example :
    (n : Text) × (some (codes " /a ") ≡ some n) × (codes "/a" ≡ trim n) × IsSafe none (codes "/a")
unfolding safe_next_for_domain contains_char klappstuhl_me.Redirect.is_bare_path
safe_next_for_domain-IsSafe_example =
    safe_next_for_domain-IsSafe (some (codes " /a ")) none (codes "/a") refl

safe_next_for_domain-forged_example :
    (safe_next_for_domain (some (codes "https://evil.org?.k.me")) (some (codes "k.me"))
      ≡ some (codes "https://evil.org?.k.me"))
    × (without_scheme (codes "https://evil.org?.k.me") ≡ some (codes "evil.org?.k.me"))
    × (browser_host (codes "evil.org?.k.me") ≡ codes "evil.org")
unfolding trim contains_char
safe_next_for_domain-forged_example =
    safe_next_for_domain-forged (codes "evil.org") (codes "k.me") refl refl refl refl refl refl refl

abbrev links : Links
links = record {
  links =
      record {
        id = 1;
        code = codes "one";
        target_url = codes "https://a.b";
        account_id = 1;
        clicks = 0;
      }
      ∷ [];
  next_id = 2;
}

abbrev wish : Links × Outcome Text
wish = create_link (λ k. true) bob (codes "https://c.d/") (codes "two") (codes "abcde") [] links

create_link_cases_example :
    ((e : LinkError) × (wish ≡ (links, failed e)))
    ⊎ Shortened (λ k. true) bob (codes "https://c.d/") (codes "two") (codes "abcde") [] links wish
create_link_cases_example =
    create_link_cases (λ k. true) bob (codes "https://c.d/") (codes "two") (codes "abcde") [] links
