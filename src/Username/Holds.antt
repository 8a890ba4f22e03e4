-- ===== src/Username/Holds.antt =====
-- The latest change of a name, and what the hint says of the hold and the cooldown.
use klappstuhl_me.Prelude.{
  ℕ, ◌≤◌, ◌≡◌, ◌≢◌, refl, ap, ◌∙◌, Bool, true, false, not, Option, none, some, List, [], ◌∷◌, any,
  ltb, ◌==◌, All, arith, Bool-cases, Option-cases, inl, inr, some_inj,
}
use klappstuhl_me.Text.{Text, text_eq}
use klappstuhl_me.Account.{Account}
use klappstuhl_me.Username.{
  UsernameChange, Names, renamed, rejected, cooldown, account_of, has_name, is_held, is_taken,
  cooldown_until, renaming, claim, latest, newer, releases, static_check, availability,
  held_by_other, held_from,
}

-- No change is later than `t`.
abbrev pub Until : ℕ → List UsernameChange → Type 0
Until t changes = All (λ (c : UsernameChange). c.changed_at ≤ t) changes

newer_bound :
    (t : ℕ) (c : UsernameChange) (o : Option UsernameChange)
    → c.changed_at ≤ t
    → ((e : UsernameChange) → o ≡ some e → e.changed_at ≤ t)
    → (d : UsernameChange) → newer c o ≡ some d
    → d.changed_at ≤ t
newer_bound t c none h k d e = rw (← some_inj e) h
newer_bound t c (some x) h k d e = elim (Bool-cases (ltb c.changed_at x.changed_at)) [
  | inl later ↦ k d (rw later at e)
  | inr earlier ↦ rw (← some_inj (rw earlier at e)) h
]

latest_bound :
    (p : UsernameChange → Bool) (t : ℕ) (cs : List UsernameChange)
    → Until t cs
    → (d : UsernameChange) → latest p cs ≡ some d
    → d.changed_at ≤ t
unfolding latest
latest_bound p t [] h d e = cc
latest_bound p t (c ∷ cs) h d e = elim (Bool-cases (p c)) [
  | inl hit ↦ newer_bound t c (latest p cs) h.0 (latest_bound p t cs h.1) d (rw hit at e)
  | inr miss ↦ latest_bound p t cs h.1 d (rw miss at e)
]

newer_head :
    (c : UsernameChange) (o : Option UsernameChange)
    → ((d : UsernameChange) → o ≡ some d → d.changed_at ≤ c.changed_at)
    → newer c o ≡ some c
newer_head c none h = refl
newer_head c (some d) h = rw (not_later (h d refl))
  where
    not_later : {a b : ℕ} → a ≤ b → ltb b a ≡ false
    not_later {a = a} {b = b} k = ground arith

pub latest_head :
    (p : UsernameChange → Bool) (c : UsernameChange) (cs : List UsernameChange)
    → p c ≡ true
    → Until c.changed_at cs
    → latest p (c ∷ cs) ≡ some c
unfolding latest
latest_head p c cs hit h = rw hit (newer_head c (latest p cs) (latest_bound p c.changed_at cs h))

pub different : {a b : ℕ} → a ≢ b → (a == b) ≡ false
different {a = a} {b = b} h = ground arith

held_agrees :
    (a : Account) (o : Option UsernameChange)
    → held_from (some a) o ≡ false
    → held_by_other a.id o ≡ false
held_agrees a none h = refl
held_agrees a (some c) h = ap not (swap a.id c.account_id) ∙ h
  where
    swap : (m n : ℕ) → (n == m) ≡ (m == n)
    swap m n = ground arith

untaken_by :
    (id : ℕ) (name : Text) (accounts : List Account)
    → any (has_name name) accounts ≡ false
    → is_taken id name accounts ≡ false
untaken_by id name [] h = refl
untaken_by id name (a ∷ accounts) h = elim (Bool-cases (has_name name a)) [
  | inl hit ↦ cc (rw hit at h)
  | inr miss ↦ rw miss (untaken_by id name accounts (rw miss at h))
]

module _ (now : ℕ) (name : Text) (a : Account) (n : Names) where
  abbrev Free : Type 0
  Free =
      (text_eq a.name name ≡ false)
      × (is_taken a.id name n.accounts ≡ false)
      × (is_held now a.id name n ≡ false)

  availability_sound : availability true now name (some a) n ≡ none → Free
  unfolding availability is_held
  availability_sound h = elim (Option-cases (static_check name)) [
    | inr (r, bad) ↦ cc (rw bad at h)
    | inl fine ↦ elim (Bool-cases (text_eq a.name name)) [
      | inl own ↦ cc (rw (fine, own) at h)
      | inr differs ↦ elim (Bool-cases (any (has_name name) n.accounts)) [
        | inl used ↦ cc (rw (fine, differs, used) at h)
        | inr free ↦ elim (Bool-cases (held_from (some a) (latest (releases now name) n.changes))) [
          | inl kept ↦ cc (rw (fine, differs, free, kept) at h)
          | inr unheld ↦ (differs, untaken_by a.id name n.accounts free, held_agrees a _ unheld)
        ]
      ]
    ]
  ]

  -- With a database that answers, a name that the hint calls free for a stored account: the claim
  -- takes it if the account is not in its cooldown. The hint is silent on the cooldown, and in it
  -- the claim refuses.
  pub availability-claim :
      availability true now name (some a) n ≡ none
      → account_of a.id n.accounts ≡ some a
      → (cooldown_until now a.id n ≡ none
          → claim true now a.id name n ≡ (renaming now a.id a.name name n, renamed a.name))
        × ((until : ℕ)
            → cooldown_until now a.id n ≡ some until
            → claim true now a.id name n ≡ (n, rejected (cooldown until)))
  unfolding claim
  availability-claim h stored =
      let (differs, untaken, unheld) = availability_sound h in
      (
        λ rested. rw (stored, differs, rested, unheld, untaken),
        λ until waiting. rw (stored, differs, waiting),
      )
