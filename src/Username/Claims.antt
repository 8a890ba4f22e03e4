-- ===== src/Username/Claims.antt =====
-- What a claim has checked, and what it answers.
use klappstuhl_me.Prelude.{
  ℕ, ◌≡◌, ◌≢◌, refl, Bool, true, false, none, some, List, [], ◌∷◌, any, All, Bool-cases,
  Option-cases, ◌⊎◌, inl, inr,
}
use klappstuhl_me.Text.{Text, text_eq}
use klappstuhl_me.Account.{Account}
use klappstuhl_me.Username.{
  Names, renamed, account_of, is_held, is_taken, cooldown_until, renaming, claim,
}

-- Two accounts with one name are the same account.
abbrev pub SameHolder : Account → Account → Type 0
SameHolder a b = text_eq a.name b.name ≡ true → a.id ≡ b.id

abbrev pub NamesUnique : List Account → Type 0
NamesUnique accounts = All (λ a. All (SameHolder a) accounts) accounts

pub none_of {ℓ} :
    {A : Type ℓ} (f : A → Bool) (xs : List A) → any f xs ≡ false → All (λ x. f x ≡ false) xs
none_of f [] h = tt
none_of f (x ∷ xs) h = elim (Bool-cases (f x)) [
  | inl hit ↦ cc (rw hit at h)
  | inr miss ↦ (miss, none_of f xs (rw miss at h))
]

-- What a claim has checked when it renames `a`.
pub record Claimed (now : ℕ) (id : ℕ) (name : Text) (n : Names) (a : Account) : Type 0 where
  pub stored : account_of id n.accounts ≡ some a
  pub differs : text_eq a.name name ≡ false
  pub rested : cooldown_until now id n ≡ none
  pub unheld : is_held now id name n ≡ false
  pub untaken : is_taken id name n.accounts ≡ false

-- A claim leaves the tables and answers with a rejection or an error, or it passed every rule and
-- wrote the name with its row of history.
pub claim_cases :
    (database_up : Bool) (now id : ℕ) (name : Text) (n : Names)
    → (((claim database_up now id name n).0 ≡ n)
        × ((o : Text) → (claim database_up now id name n).1 ≢ renamed o))
      ⊎ ((a : Account) × Claimed now id name n a
          × (claim database_up now id name n ≡ (renaming now id a.name name n, renamed a.name)))
unfolding claim
claim_cases false now id name n = inl (refl, λ o h. cc)
claim_cases true now id name n = elim (Option-cases (account_of id n.accounts)) [
  | inl missing ↦ inl (rw missing (refl, λ o h. cc))
  | inr (a, stored) ↦ elim (Bool-cases (text_eq a.name name)) [
    | inl same ↦ inl (rw (stored, same) (refl, λ o h. cc))
    | inr differs ↦ elim (Option-cases (cooldown_until now id n)) [
      | inr (until, waiting) ↦ inl (rw (stored, differs, waiting) (refl, λ o h. cc))
      | inl rested ↦ elim (Bool-cases (is_held now id name n)) [
        | inl kept ↦ inl (rw (stored, differs, rested, kept) (refl, λ o h. cc))
        | inr unheld ↦ elim (Bool-cases (is_taken id name n.accounts)) [
          | inl used ↦ inl (rw (stored, differs, rested, unheld, used) (refl, λ o h. cc))
          | inr untaken ↦ inr (
            a,
            record {
              stored = stored;
              differs = differs;
              rested = rested;
              unheld = unheld;
              untaken = untaken;
            },
            rw (stored, differs, rested, unheld, untaken),
          )
        ]
      ]
    ]
  ]
]
