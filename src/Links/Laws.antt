-- ===== src/Links/Laws.antt =====
-- What `create_link` has checked when it stores a link, and what the link then resolves to.
use klappstuhl_me.Prelude.{
  ℕ, ◌<◌, ◌≡◌, refl, sym, subst, Bool, true, false, not, ◌&&◌, ◌||◌, some, List, [], ◌∷◌, ltb, leb,
  ◌==◌, all, any, take, keep_if, length, Bool-cases, ◌⊎◌, inl, inr, arith, if◌then◌else◌,
}
use klappstuhl_me.Text.{Text, text_eq, trim, is_empty, byte_len}
use klappstuhl_me.Text.Equality.{text_eq_refl, text_eq_sound}
use klappstuhl_me.Account.{Account, is_admin}
use klappstuhl_me.Links.{
  ShortLink, Links, code_used, inserted, insert_first_free, insert_link, create_link,
  resolve_and_redirect, and_insert, chosen_code, count_links, free_link_limit, auto_code_attempts,
  after_first,
}
use klappstuhl_me.Links.Validate.{
  LinkError, Outcome, done, failed, taken, database, limit_reached, normalize_target, validate_code,
  is_code_char, is_reserved_code, max_code_len,
}

insert_first_free_cases :
    (up : ℕ → Bool) (target : Text) (account_id : ℕ) (tried : List Text) (n : Links)
    → ((e : LinkError) × (insert_first_free up target account_id tried n ≡ (n, failed e)))
      ⊎ ((code : Text) × (code_used code n.links ≡ false)
          × (any (text_eq code) tried ≡ true)
          × (insert_first_free up target account_id tried n
              ≡ (inserted code target account_id n, done code)))
unfolding insert_first_free
insert_first_free_cases up target account_id [] n = inl (taken, refl)
insert_first_free_cases up target account_id (code ∷ tried) n = elim (Bool-cases (up 0)) [
  | inr down ↦ inl (database, rw down)
  | inl answers ↦ elim (Bool-cases (code_used code n.links)) [
    | inr free ↦ inr (code, free, rw (text_eq_refl code), rw (answers, free))
    | inl used ↦ elim (insert_first_free_cases (after_first up) target account_id tried n) [
      | inl (e, none_free) ↦ inl (e, rw (answers, used) none_free)
      | inr (other, free, among, e) ↦ inr (other, free, or_right _ _ among, rw (answers, used) e)
    ]
  ]
]
  where
    or_right : (b c : Bool) → c ≡ true → (b || c) ≡ true
    or_right true c h = refl
    or_right false c h = h

done_inj : {s t : Text} → done s ≡ done t → s ≡ t
done_inj e = cc

-- What passes as an alias is the trimmed input, short, of plain characters and not reserved.
pub validate_code_sound :
    (raw code : Text)
    → validate_code raw ≡ done code
    → (code ≡ trim raw)
      × (is_empty code ≡ false)
      × (ltb max_code_len (byte_len code) ≡ false)
      × (all is_code_char code ≡ true)
      × (is_reserved_code code ≡ false)
unfolding validate_code
validate_code_sound raw code h = elim (Bool-cases (is_empty (trim raw))) [
  | inl blank ↦ cc (rw blank at h)
  | inr filled ↦ elim (Bool-cases (ltb max_code_len (byte_len (trim raw)))) [
    | inl long ↦ cc (rw (filled, long) at h)
    | inr short ↦ elim (Bool-cases (all is_code_char (trim raw))) [
      | inr odd ↦ cc (rw (filled, short, odd) at h)
      | inl plain ↦ elim (Bool-cases (is_reserved_code (trim raw))) [
        | inl kept ↦ cc (rw (filled, short, plain, kept) at h)
        | inr free ↦
            rw (← done_inj (rw (filled, short, plain, free) at h))
              (refl, filled, short, plain, free)
      ]
    ]
  ]
]

-- The code of a new link: the alias that was asked for, which passes the rules, or where none was
-- asked for one of the codes that were generated, of which six are tried at most.
abbrev Chosen : Text → Text → List Text → Text → Type 0
Chosen form_code generated fresh stored =
    ((stored ≡ trim form_code)
      × (is_empty stored ≡ false)
      × (ltb max_code_len (byte_len stored) ≡ false)
      × (all is_code_char stored ≡ true)
      × (is_reserved_code stored ≡ false))
    ⊎ ((is_empty (trim form_code) ≡ true)
        × (any (text_eq stored) (take auto_code_attempts (generated ∷ fresh)) ≡ true))

-- An admin, an account below the limit, or one whose links could not be counted.
abbrev MayAdd : Bool → Account → Links → Type 0
MayAdd up account n =
    (is_admin account ≡ true)
    ⊎ ((up ≡ false)
        ⊎ (length (keep_if (λ (l : ShortLink). l.account_id == account.id) n.links)
            < free_link_limit))

module _ (up : ℕ → Bool) (account : Account) (target_url form_code generated : Text)
    (fresh : List Text) (n : Links) where
  pub record Shortened (out : Links × Outcome Text) : Type 0 where
    pub target : Text
    pub stored : Text
    pub within : MayAdd (up 0) account n
    pub aimed : normalize_target target_url ≡ done target
    pub chosen : Chosen form_code generated fresh stored
    pub free : code_used stored n.links ≡ false
    pub result : out ≡ (inserted stored target account.id n, done stored)
    pub resolves : (resolve_and_redirect (λ k. true) stored out.0).1 ≡ some target

  room_left :
      (not (is_admin account) && leb free_link_limit (count_links (up 0) account.id n)) ≡ false
      → MayAdd (up 0) account n
  unfolding count_links
  room_left h = elim (Bool-cases (is_admin account)) [
    | inl admin ↦ inl admin
    | inr common ↦ elim (Bool-cases (up 0)) [
      | inr down ↦ inr (inl down)
      | inl answers ↦ inr (inr (ground (arith, (rw (common, answers) at h))))
    ]
  ]

  chosen_code-Chosen :
      (code stored : Text)
      → chosen_code generated form_code ≡ done code
      → any (text_eq stored) (
          if not (is_empty (trim form_code))
          then code ∷ []
          else take auto_code_attempts (code ∷ fresh))
        ≡ true
      → Chosen form_code generated fresh stored
  chosen_code-Chosen code stored h among = elim (Bool-cases (is_empty (trim form_code))) [
    | inl blank ↦
        let same : code ≡ generated = sym (done_inj (rw blank at h)) in
        inr (
          blank,
          subst (λ c. any (text_eq stored) (take auto_code_attempts (c ∷ fresh)) ≡ true) same
              (rw blank at among),
        )
    | inr given ↦
        let same : code ≡ stored =
          sym (text_eq_sound stored code (only (text_eq stored code) (rw given at among))) in
        inl (
          subst
            (λ c.
              (c ≡ trim form_code)
              × (is_empty c ≡ false)
              × (ltb max_code_len (byte_len c) ≡ false)
              × (all is_code_char c ≡ true)
              × (is_reserved_code c ≡ false))
            same (validate_code_sound form_code code (rw given at h)))
  ]
    where
      only : (b : Bool) → (b || false) ≡ true → b ≡ true
      only true h = refl
      only false h = h

  abbrev Cases : Links × Outcome Text → Type 0
  Cases r = ((e : LinkError) × (r ≡ (n, failed e))) ⊎ Shortened r

  and_insert-Cases :
      (target code : Outcome Text)
      → normalize_target target_url ≡ target
      → chosen_code generated form_code ≡ code
      → MayAdd (up 0) account n
      → Cases (
          and_insert
            (after_first up)
            fresh
            account.id
            (not (is_empty (trim form_code)))
            n
            target
            code)
  unfolding insert_link resolve_and_redirect
  and_insert-Cases (failed e) code aimed named within = inl (e, refl)
  and_insert-Cases (done target) (failed e) aimed named within = inl (e, refl)
  and_insert-Cases (done target) (done code) aimed named within =
      elim (insert_first_free_cases (after_first up) target account.id
        (if not (is_empty (trim form_code))
          then code ∷ []
          else take auto_code_attempts (code ∷ fresh))
        n) [
          | inl (e, refused) ↦ inl (e, refused)
          | inr (stored, free, among, e) ↦ inr (record {
            target = target;
            stored = stored;
            within = within;
            aimed = aimed;
            chosen = chosen_code-Chosen code stored named among;
            free = free;
            result = e;
            resolves = rw e (rw (text_eq_refl stored) refl);
          })
        ]

  -- A creation of a short link answers with an error and changes nothing; or the account is an
  -- admin, below the limit, or not to be counted for want of an answer, the target is valid, and
  -- one link to it is stored under a code that no link had: the alias that was asked for, which
  -- passes the rules, or where none was asked for one of the first six codes that were generated.
  -- That code then leads to the target.
  pub create_link_cases :
      ((e : LinkError) × (create_link up account target_url form_code generated fresh n
          ≡ (n, failed e)))
      ⊎ Shortened (create_link up account target_url form_code generated fresh n)
  unfolding create_link
  create_link_cases =
      elim (Bool-cases
        (not (is_admin account) && leb free_link_limit (count_links (up 0) account.id n))) [
          | inl full ↦ inl (limit_reached, rw full)
          | inr room ↦ rw room (and_insert-Cases _ _ refl refl (room_left room))
        ]
