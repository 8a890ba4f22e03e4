-- ===== src/Redirect/Parts.antt =====
-- The parts of a redirect target, described without the tests that read them, and that those tests
-- find them.
use klappstuhl_me.Prelude.{
  ℕ, ◌≡◌, ◌≢◌, refl, sym, ap, ◌∙◌, true, false, Option, some, [], ◌∷◌, ◌++◌, ◌==◌, ==_iff,
  Bool-cases, Option-cases, ◌⊎◌, inl, inr, some_inj,
}
use klappstuhl_me.Text.{Text, codes, text_eq, strip_prefix, contains_char, before}
use klappstuhl_me.Text.Equality.{text_eq_sound}
use klappstuhl_me.Redirect.{
  starts_with, ends_with, http, https, without_scheme, host_of, is_trusted_host, is_bare_path,
}

-- A path of this host: one slash, and no second one after it.
abbrev IsLocal : Text → Type 0
IsLocal t = (rest : Text) × (t ≡ b'/' ∷ rest) × ((more : Text) → rest ≢ b'/' ∷ more)

-- Where the text of a host ends.
abbrev IsTail : Text → Type 0
IsTail rest = (rest ≡ []) ⊎ ((more : Text) × ((rest ≡ b'/' ∷ more) ⊎ (rest ≡ b':' ∷ more)))

-- An absolute address: a scheme, the host up to the first slash or colon, and the rest; the host is
-- the domain, or ends in a dot and the domain.
pub record IsWithin (domain t : Text) : Type 0 where
  pub scheme : Text
  pub host : Text
  pub rest : Text
  pub schemed : (scheme ≡ codes "http://") ⊎ (scheme ≡ codes "https://")
  pub parts : t ≡ scheme ++ (host ++ rest)
  pub slashless : contains_char b'/' host ≡ false
  pub colonless : contains_char b':' host ≡ false
  pub ended : IsTail rest
  pub below : (host ≡ domain) ⊎ ((sub : Text) × (host ≡ sub ++ b'.' ∷ domain))

-- A target without a backslash that stays on this host, or on the trusted domain or below it.
abbrev pub IsSafe : Option Text → Text → Type 0
IsSafe trusted t =
    (contains_char b'\\' t ≡ false)
    × (IsLocal t ⊎ ((domain : Text) × (trusted ≡ some domain) × IsWithin domain t))

strip_prefix_sound : (p s r : Text) → strip_prefix p s ≡ some r → s ≡ p ++ r
unfolding strip_prefix
strip_prefix_sound [] s r h = some_inj h
strip_prefix_sound (c ∷ p) [] r h = cc
strip_prefix_sound (c ∷ p) (d ∷ s) r h = elim (Bool-cases (c == d)) [
  | inr miss ↦ cc (rw miss at h)
  | inl hit ↦ rw ((==_iff c d).0 hit, strip_prefix_sound p s r (rw hit at h)) refl
]

strip_prefix-append : (p r : Text) → strip_prefix p (p ++ r) ≡ some r
unfolding strip_prefix
strip_prefix-append [] r = refl
strip_prefix-append (c ∷ p) r = rw ((==_iff c c).1 refl) (strip_prefix-append p r)

pub is_bare_path-IsLocal : (t : Text) → is_bare_path t ≡ true → IsLocal t
unfolding is_bare_path starts_with
is_bare_path-IsLocal t h = elim (Option-cases (strip_prefix (codes "/") t)) [
  | inl missing ↦ cc (rw missing at h)
  | inr (rest, found) ↦
      let is = strip_prefix_sound (codes "/") t rest found in
      (
        rest,
        is,
        λ more again.
            let twice : strip_prefix (codes "//") t ≡ some more =
              rw (is, again) (strip_prefix-append (codes "//") more) in
            cc (rw (found, twice) at h),
      )
]

-- What stands before the first `c`, and what follows it.
before_split :
    (c : ℕ) (s : Text)
    → (rest : Text) × (s ≡ before c s ++ rest)
      × (contains_char c (before c s) ≡ false)
      × ((rest ≡ []) ⊎ ((more : Text) × (rest ≡ c ∷ more)))
unfolding before contains_char
before_split c [] = ([], refl, refl, inl refl)
before_split c (d ∷ s) = elim (Bool-cases (d == c)) [
  | inl hit ↦ rw hit (d ∷ s, refl, refl, inr (s, ap (λ e. e ∷ s) ((==_iff d c).0 hit)))
  | inr miss ↦
      let (rest, parts, free, tail) = before_split c s in
      rw miss (rest, ap (λ t. d ∷ t) parts, rw miss free, tail)
]

contains_char_left :
    (c : ℕ) (s t : Text) → contains_char c (s ++ t) ≡ false → contains_char c s ≡ false
unfolding contains_char
contains_char_left c [] t h = refl
contains_char_left c (d ∷ s) t h = elim (Bool-cases (d == c)) [
  | inl hit ↦ cc (rw hit at h)
  | inr miss ↦ rw miss (contains_char_left c s t (rw miss at h))
]

ends_with_sound : (p s : Text) → ends_with p s ≡ true → (sub : Text) × (s ≡ sub ++ p)
unfolding ends_with
ends_with_sound p [] h = ([], sym (text_eq_sound p [] h))
ends_with_sound p (c ∷ s) h = elim (Bool-cases (text_eq p (c ∷ s))) [
  | inl same ↦ ([], sym (text_eq_sound p (c ∷ s) same))
  | inr other ↦ let (sub, is) = ends_with_sound p s (rw other at h) in (c ∷ sub, ap (λ t. c ∷ t) is)
]

is_trusted_host_below :
    (domain host : Text)
    → is_trusted_host domain host ≡ true
    → (host ≡ domain) ⊎ ((sub : Text) × (host ≡ sub ++ b'.' ∷ domain))
unfolding is_trusted_host
is_trusted_host_below domain host h = elim (Bool-cases (text_eq host domain)) [
  | inl same ↦ inl (text_eq_sound host domain same)
  | inr other ↦ inr (ends_with_sound (b'.' ∷ domain) host (rw other at h))
]

without_scheme_sound :
    (t url : Text)
    → without_scheme t ≡ some url
    → (scheme : Text) × ((scheme ≡ http) ⊎ (scheme ≡ https)) × (t ≡ scheme ++ url)
unfolding without_scheme
without_scheme_sound t url h = elim (Option-cases (strip_prefix http t)) [
  | inr (r, found) ↦ (http, inl refl, strip_prefix_sound http t url (found ∙ (rw found at h)))
  | inl missing ↦ (https, inr refl, strip_prefix_sound https t url (rw missing at h))
]

append-IsTail :
    (near far : Text)
    → ((near ≡ []) ⊎ ((more : Text) × (near ≡ b':' ∷ more)))
    → ((far ≡ []) ⊎ ((more : Text) × (far ≡ b'/' ∷ more)))
    → IsTail (near ++ far)
append-IsTail near far (inr (more, e)) k = inr (more ++ far, inr (rw e refl))
append-IsTail near far (inl e) (inl k) = inl (rw (e, k) refl)
append-IsTail near far (inl e) (inr (more, k)) = inr (more, inl (rw (e, k) refl))

append_assoc : (s t u : Text) → (s ++ t) ++ u ≡ s ++ (t ++ u)
append_assoc [] t u = refl
append_assoc (c ∷ s) t u = ap (λ r. c ∷ r) (append_assoc s t u)

pub is_trusted_host-IsWithin :
    (domain t url : Text)
    → without_scheme t ≡ some url
    → is_trusted_host domain (host_of url) ≡ true
    → IsWithin domain t
unfolding host_of
is_trusted_host-IsWithin domain t url found trusted =
    let (scheme, schemed, parts) = without_scheme_sound t url found in
    let (far, outer, slashless, ends) = before_split b'/' url in
    let (near, inner, colonless, stops) = before_split b':' (before b'/' url) in
    record {
      scheme = scheme;
      host = before b':' (before b'/' url);
      rest = near ++ far;
      schemed = schemed;
      parts =
          parts
          ∙ ap (λ s. scheme ++ s)
              (outer
                ∙ ap (λ s. s ++ far) inner
                ∙ append_assoc (before b':' (before b'/' url)) near far);
      slashless = contains_char_left b'/' _ near (ap (contains_char b'/') (sym inner) ∙ slashless);
      colonless = colonless;
      ended = append-IsTail near far stops ends;
      below = is_trusted_host_below domain _ trusted;
    }
