-- ===== src/Username/Protection.antt =====
-- The hold on a released name through the claims that follow.
use klappstuhl_me.Prelude.{
  ℕ, ◌+◌, ◌<◌, ◌≡◌, ◌≢◌, refl, sym, ap, ◌∙◌, subst, Bool, true, false, some, List, [], ◌∷◌, any,
  find, ◌==◌, ==_iff, ==_refl, All, Bool-cases, inl, inr, some_inj, lt→ltb,
}
use klappstuhl_me.Text.{Text, text_eq}
use klappstuhl_me.Text.Equality.{text_eq_refl, text_eq_sound}
use klappstuhl_me.Account.{Account}
use klappstuhl_me.Username.{
  UsernameChange, Names, Outcome, renamed, has_name, is_held, cooldown_until, with_name, renaming,
  claim, latest, releases, is_change_of, cooldown_secs, release_hold_secs,
}
use klappstuhl_me.Username.Claims.{NamesUnique, SameHolder, Claimed, none_of, claim_cases}
use klappstuhl_me.Username.Holds.{Until, latest_head, different}

-- One claim of the sequence: whether the database answers, when, who, and the name.
pub record Attempt : Type 0 where
  pub up : Bool
  pub at : ℕ
  pub id : ℕ
  pub name : Text

unfoldable pub claims : List Attempt → Names → Names
claims [] n = n
claims (c ∷ calls) n = claims calls (claim c.up c.at c.id c.name n).0

module _ {ℓ} {A : Type ℓ} (f : A → Bool) where
  found_true : (xs : List A) (x : A) → find f xs ≡ some x → f x ≡ true
  found_true [] x h = cc
  found_true (y ∷ xs) x h = elim (Bool-cases (f y)) [
    | inl hit ↦ ap f (sym (some_inj (rw hit at h))) ∙ hit
    | inr miss ↦ found_true xs x (rw miss at h)
  ]

  found_all {κ} : (P : A → Type κ) (xs : List A) (x : A) → All P xs → find f xs ≡ some x → P x
  found_all P [] x ps h = cc
  found_all P (y ∷ xs) x ps h = elim (Bool-cases (f y)) [
    | inl hit ↦ subst P (some_inj (rw hit at h)) ps.0
    | inr miss ↦ found_all P xs x ps.1 (rw miss at h)
  ]

text_eq_swap_false : (s t : Text) → text_eq s t ≡ false → text_eq t s ≡ false
text_eq_swap_false s t h = elim (Bool-cases (text_eq t s)) [
  | inr other ↦ other
  | inl same ↦ cc (h, text_eq_refl t, text_eq_sound t s same)
]

-- A name that neither the renamed account nor another one has.
with_name_free :
    (old name : Text) (id : ℕ) (accounts : List Account)
    → text_eq name old ≡ false
    → All (λ (b : Account). (b.id == id) ≡ false → has_name old b ≡ false) accounts
    → any (has_name old) (with_name id name accounts) ≡ false
with_name_free old name id [] differs h = refl
with_name_free old name id (b ∷ accounts) differs h = elim (Bool-cases (b.id == id)) [
  | inl mine ↦ rw (mine, differs) (with_name_free old name id accounts differs h.1)
  | inr other ↦ rw (other, h.0 other) (with_name_free old name id accounts differs h.1)
]

module _ (t a : ℕ) (old : Text) where
  -- Nobody has the name, its latest release is that of the account, and that was its latest change.
  pub record Guarded (n : Names) : Type 0 where
    pub released :
        (later : ℕ)
        → later < t + release_hold_secs
        → (c : UsernameChange) × (latest (releases later old) n.changes ≡ some c)
          × (c.account_id ≡ a)
    pub recent :
        (c : UsernameChange) × (latest (is_change_of a) n.changes ≡ some c) × (c.changed_at ≡ t)
    pub unnamed : any (has_name old) n.accounts ≡ false

  module _ (n : Names) (g : Guarded n) (later : ℕ) (soon : later < t + release_hold_secs) where
    Guarded-is_held : (b : ℕ) → a ≢ b → is_held later b old n ≡ true
    unfolding is_held
    Guarded-is_held b other =
        let (c, found, mine) = g.released later soon in rw (found, mine, different other) refl

    Guarded-cooldown_until : cooldown_until later a n ≡ some (t + cooldown_secs)
    unfolding cooldown_until
    Guarded-cooldown_until =
        let (c, found, then_) = g.recent in
        rw (found, then_, lt→ltb later (t + cooldown_secs) soon) refl

    Claimed-by_other :
        (b : ℕ) (name : Text) (acc : Account) → Claimed later b name n acc → (b == a) ≡ false
    Claimed-by_other b name acc c = elim (Bool-cases (b == a)) [
      | inr other ↦ other
      | inl same ↦ cc (c.rested, Guarded-cooldown_until, (==_iff b a).0 same)
    ]

    Claimed-other_name :
        (b : ℕ) (name : Text) (acc : Account)
        → Claimed later b name n acc
        → text_eq name old ≡ false
    Claimed-other_name b name acc c = elim (Bool-cases (text_eq name old)) [
      | inr other ↦ other
      | inl same ↦ cc (
        c.unheld,
        text_eq_sound name old same,
        Guarded-is_held b (λ e. cc (Claimed-by_other b name acc c, e, ==_refl b)),
      )
    ]

    Guarded-renaming :
        (b : ℕ) (name : Text) (acc : Account)
        → Claimed later b name n acc
        → Guarded (renaming later b acc.name name n)
    unfolding latest
    Guarded-renaming b name acc c =
        let other = Claimed-by_other b name acc c in
        let free = none_of (has_name old) n.accounts g.unnamed in
        let left : text_eq acc.name old ≡ false =
          found_all (λ (x : Account). x.id == b) (λ x. has_name old x ≡ false) n.accounts acc free
            c.stored in
        record {
          released = λ l s. rw left (g.released l s);
          recent = rw other g.recent;
          unnamed =
              with_name_free old name b n.accounts (Claimed-other_name b name acc c)
                (weaker n.accounts free);
        }
      where
        weaker :
            (xs : List Account)
            → All (λ x. has_name old x ≡ false) xs
            → All (λ (x : Account). (x.id == b) ≡ false → has_name old x ≡ false) xs
        weaker [] h = tt
        weaker (x ∷ xs) h = (λ _. h.0, weaker xs h.1)

    Guarded-claim : (up : Bool) (b : ℕ) (name : Text) → Guarded (claim up later b name n).0
    Guarded-claim up b name = elim (claim_cases up later b name n) [
      | inl (same, _) ↦ rw same g
      | inr (acc, c, done) ↦ rw done (Guarded-renaming b name acc c)
    ]

  Guarded-claims :
      (calls : List Attempt) (n : Names)
      → All (λ (c : Attempt). c.at < t + release_hold_secs) calls
      → Guarded n
      → Guarded (claims calls n)
  unfolding claims
  Guarded-claims [] n soon g = g
  Guarded-claims (c ∷ calls) n soon g =
      Guarded-claims calls _ soon.1 (Guarded-claim n g c.at soon.0 c.up c.id c.name)

module _ (t a : ℕ) (acc : Account) (name : Text) (n : Names) (c : Claimed t a name n acc)
    (ordered : Until t n.changes) (unique : NamesUnique n.accounts) where
  freed :
      (xs : List Account)
      → All (SameHolder acc) xs
      → All (λ (b : Account). (b.id == a) ≡ false → has_name acc.name b ≡ false) xs
  freed [] h = tt
  freed (b ∷ xs) h = (
    λ other. elim (Bool-cases (text_eq b.name acc.name)) [
      | inr differs ↦ differs
      | inl same ↦
          let holder : acc.id ≡ b.id = h.0 (
            subst (λ s. text_eq acc.name s ≡ true) (sym (text_eq_sound b.name acc.name same))
              (text_eq_refl acc.name)) in
          let mine : acc.id ≡ a =
            (==_iff acc.id a).0 (found_true (λ (x : Account). x.id == a) n.accounts acc c.stored) in
          cc (other, (==_iff b.id a).1 (sym holder ∙ mine))
    ],
    freed xs h.1,
  )

  Guarded-rename : Guarded t a acc.name (renaming t a acc.name name n)
  Guarded-rename = record {
    released = λ later soon. (
      record { account_id = a; old_name = acc.name; new_name = name; changed_at = t },
      latest_head (releases later acc.name) _ n.changes
          (rw (text_eq_refl acc.name, lt→ltb later (t + release_hold_secs) soon) refl) ordered,
      refl,
    );
    recent = (
      record { account_id = a; old_name = acc.name; new_name = name; changed_at = t },
      latest_head (is_change_of a) _ n.changes (==_refl a) ordered,
      refl,
    );
    unnamed =
        with_name_free acc.name name a n.accounts (text_eq_swap_false acc.name name c.differs) (
          freed n.accounts (
            found_all (λ (x : Account). x.id == a) (λ x. All (SameHolder x) n.accounts) n.accounts
              acc unique c.stored));
  }

Guarded-after :
    (up : Bool) (t a : ℕ) (name old : Text) (n n' : Names)
    → claim up t a name n ≡ (n', renamed old)
    → Until t n.changes
    → NamesUnique n.accounts
    → Guarded t a old n'
Guarded-after up t a name old n n' h ordered unique = elim (claim_cases up t a name n) [
  | inl (_, never) ↦ absurd (never old (ap (λ (r : Names × Outcome). r.1) h))
  | inr (acc, c, done) ↦
      let same : (renaming t a acc.name name n, renamed acc.name) ≡ (n', renamed old) =
        sym done ∙ h in
      let tables : renaming t a acc.name name n ≡ n' = ap (λ (r : Names × Outcome). r.0) same in
      let names : acc.name ≡ old = renamed_inj (ap (λ (r : Names × Outcome). r.1) same) in
      rw (← tables, ← names) (Guarded-rename t a acc name n c ordered unique)
]
  where
    renamed_inj : {x y : Text} → renamed x ≡ renamed y → x ≡ y
    renamed_inj e = cc

-- After a rename, where every name had one account and no change was later, and whatever claims of
-- whichever accounts follow it within thirty days: no account has the old name, and neither a
-- claim of it by another account nor any claim of the account that gave it up is granted in these
-- days. Sign-ups are not among what follows.
pub claims-protected :
    (up up' : Bool) (t a : ℕ) (name old : Text) (n n' : Names)
    → claim up t a name n ≡ (n', renamed old)
    → Until t n.changes
    → NamesUnique n.accounts
    → (calls : List Attempt) → All (λ (c : Attempt). c.at < t + release_hold_secs) calls
    → (later : ℕ) → later < t + release_hold_secs
    → (any (has_name old) (claims calls n').accounts ≡ false)
      × ((b : ℕ) (o : Text) → a ≢ b → (claim up' later b old (claims calls n')).1 ≢ renamed o)
      × ((any_name o : Text) → (claim up' later a any_name (claims calls n')).1 ≢ renamed o)
claims-protected up up' t a name old n n' h ordered unique calls within later soon =
    let g =
      Guarded-claims t a old calls n' within
        (Guarded-after up t a name old n n' h ordered unique) in
    (
      g.unnamed,
      λ b o other e. elim (claim_cases up' later b old (claims calls n')) [
        | inl (_, never) ↦ never o e
        | inr (_, c, _) ↦ cc (c.unheld, Guarded-is_held t a old _ g later soon b other)
      ],
      λ any_name o e. elim (claim_cases up' later a any_name (claims calls n')) [
        | inl (_, never) ↦ never o e
        | inr (_, c, _) ↦ cc (c.rested, Guarded-cooldown_until t a old _ g later soon)
      ],
    )
