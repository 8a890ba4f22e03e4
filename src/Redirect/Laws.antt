-- ===== src/Redirect/Laws.antt =====
-- What a validated redirect target is, and what it can still be.
use klappstuhl_me.Prelude.{
  ℕ, ◌≡◌, refl, ap, true, false, Option, none, some, [], ◌∷◌, ◌++◌, ◌==◌, Bool-cases, Option-cases,
  inl, inr, some_inj,
}
use klappstuhl_me.Text.{Text, text_eq, trim, is_empty, strip_prefix, contains_char, before}
use klappstuhl_me.Text.Equality.{text_eq_refl}
use klappstuhl_me.Redirect.Parts.{IsWithin, IsSafe, is_bare_path-IsLocal, is_trusted_host-IsWithin}
use klappstuhl_me.Redirect.{
  starts_with, ends_with, https, without_scheme, host_of, is_trusted_host, is_trusted_url,
  is_bare_path, checked, safe_next_for_domain,
}

trusted_url-IsWithin :
    (trusted : Option Text) (t : Text)
    → is_trusted_url trusted t ≡ true
    → (domain : Text) × (trusted ≡ some domain) × IsWithin domain t
trusted_url-IsWithin none t h = cc
trusted_url-IsWithin (some domain) t h = elim (Option-cases (without_scheme t)) [
  | inl missing ↦ cc (rw missing at h)
  | inr (url, found) ↦ (domain, refl, is_trusted_host-IsWithin domain t url found (rw found at h))
]

checked_sound :
    (n : Text) (trusted : Option Text) (t : Text)
    → checked n trusted ≡ some t
    → (t ≡ n) × IsSafe trusted t
checked_sound n trusted t h = elim (Bool-cases (is_empty n)) [
  | inl blank ↦ cc (rw blank at h)
  | inr filled ↦ elim (Bool-cases (contains_char b'\\' n)) [
    | inl slashed ↦ cc (rw (filled, slashed) at h)
    | inr clean ↦ elim (Bool-cases (is_bare_path n)) [
      | inl bare ↦
          rw (← some_inj (rw (filled, clean, bare) at h))
            (refl, (clean, inl (is_bare_path-IsLocal n bare)))
      | inr absolute ↦ elim (Bool-cases (is_trusted_url trusted n)) [
        | inr foreign ↦ cc (rw (filled, clean, absolute, foreign) at h)
        | inl known ↦
            rw (← some_inj (rw (filled, clean, absolute, known) at h))
              (refl, (clean, inr (trusted_url-IsWithin trusted n known)))
      ]
    ]
  ]
]

-- What the validation lets through is the trimmed input and has no backslash. It is a path with
-- one leading slash and not two; or it is http:// or https://, a host without slash or colon, and
-- then nothing or a rest that begins with one of these, and the host is the trusted domain or ends
-- in a dot and that domain.
pub safe_next_for_domain-IsSafe :
    (next trusted : Option Text) (t : Text)
    → safe_next_for_domain next trusted ≡ some t
    → (n : Text) × (next ≡ some n) × (t ≡ trim n) × IsSafe trusted t
unfolding safe_next_for_domain
safe_next_for_domain-IsSafe none trusted t h = cc
safe_next_for_domain-IsSafe (some n) trusted t h =
    let (same, safe) = checked_sound (trim n) trusted t h in (n, refl, same, safe)

-- Where a browser goes: the authority ends at a slash, a question mark or a hash as well.
abbrev pub browser_host : Text → Text
browser_host url = before b':' (before b'?' (before b'#' (before b'/' url)))

before_free : (c : ℕ) (s : Text) → contains_char c s ≡ false → before c s ≡ s
unfolding before contains_char
before_free c [] h = refl
before_free c (d ∷ s) h = elim (Bool-cases (d == c)) [
  | inl hit ↦ cc (rw hit at h)
  | inr miss ↦ rw miss (ap (λ r. d ∷ r) (before_free c s (rw miss at h)))
]

before_end :
    (c : ℕ) (s t : Text) → contains_char c s ≡ false → (c == c) ≡ true → before c (s ++ c ∷ t) ≡ s
unfolding before contains_char
before_end c [] t h e = rw e
before_end c (d ∷ s) t h e = elim (Bool-cases (d == c)) [
  | inl hit ↦ cc (rw hit at h)
  | inr miss ↦ rw miss (ap (λ r. d ∷ r) (before_end c s t (rw miss at h) e))
]

ends_with_self : (p : Text) → ends_with p p ≡ true
unfolding ends_with
ends_with_self [] = text_eq_refl []
ends_with_self (c ∷ p) = rw (text_eq_refl (c ∷ p))

ends_with_longer : (p : Text) (c : ℕ) (t : Text) → ends_with p t ≡ true → ends_with p (c ∷ t) ≡ true
unfolding ends_with
ends_with_longer p c t h = elim (Bool-cases (text_eq p (c ∷ t))) [
  | inl whole ↦ rw whole
  | inr tail ↦ rw (tail, h)
]

ends_with_append : (p s t : Text) → ends_with p t ≡ true → ends_with p (s ++ t) ≡ true
ends_with_append p [] t h = h
ends_with_append p (c ∷ s) t h = ends_with_longer p c (s ++ t) (ends_with_append p s t h)

trusted_below :
    (domain host : Text)
    → ends_with (b'.' ∷ domain) host ≡ true
    → is_trusted_host domain host ≡ true
unfolding is_trusted_host
trusted_below domain host h = elim (Bool-cases (text_eq host domain)) [
  | inl same ↦ rw same
  | inr below ↦ rw (below, h)
]

abbrev forged : Text → Text → Text
forged host domain = host ++ b'?' ∷ b'.' ∷ domain

-- An address of any host, followed by a question mark, a dot and the trusted domain, is let
-- through, and a browser goes to that host, where the address has no blanks at its ends and no
-- backslash, host and domain have no slash, colon or hash, and the host no question mark.
pub safe_next_for_domain-forged :
    (host domain : Text)
    → trim (https ++ forged host domain) ≡ https ++ forged host domain
    → contains_char b'\\' (https ++ forged host domain) ≡ false
    → contains_char b'/' (forged host domain) ≡ false
    → contains_char b':' (forged host domain) ≡ false
    → contains_char b'#' (forged host domain) ≡ false
    → contains_char b'?' host ≡ false
    → contains_char b':' host ≡ false
    → (safe_next_for_domain (some (https ++ forged host domain)) (some domain)
        ≡ some (https ++ forged host domain))
      × (without_scheme (https ++ forged host domain) ≡ some (forged host domain))
      × (browser_host (forged host domain) ≡ host)
unfolding safe_next_for_domain is_bare_path starts_with without_scheme strip_prefix host_of
safe_next_for_domain-forged host domain trimmed clean slashless colonless hashless plain portless =
    (
      rw (
        trimmed,
        clean,
        before_free b'/' _ slashless,
        before_free b':' _ colonless,
        trusted_below domain (forged host domain) (
            ends_with_append (b'.' ∷ domain) host _
              (ends_with_longer (b'.' ∷ domain) b'?' _ (ends_with_self (b'.' ∷ domain)))),
      ),
      refl,
      rw (
        before_free b'/' _ slashless,
        before_free b'#' _ hashless,
        before_end b'?' host (b'.' ∷ domain) plain refl,
        before_free b':' host portless,
      ),
    )
