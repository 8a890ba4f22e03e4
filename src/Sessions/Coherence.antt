-- ===== src/Sessions/Coherence.antt =====
-- The caches agree with the tables, before and after every operation on sessions.
use klappstuhl_me.Prelude.{
  ℕ, ◌≡◌, ◌≢◌, refl, sym, ap, ◌∙◌, subst, Bool, true, false, not, ◌&&◌, none, some, List, [], ◌∷◌,
  ◌==◌, ==_iff, find, any, keep_if, Bool-cases, ◌⊎◌, inl, inr, some_inj, arith,
}
use klappstuhl_me.Text.{Text, text_eq}
use klappstuhl_me.Text.Equality.{text_eq_refl, text_eq_sound}
use klappstuhl_me.Account.{Account}
use klappstuhl_me.Cache.{Cache}
use klappstuhl_me.Cache.Reads.{get-remove_some, get-insert_some}
use klappstuhl_me.Scope.{Session}
use klappstuhl_me.Sessions.{SessionInfo, has_session_id, session_row, account_row, State}

pub same_text : (k j : Text) → (k ≡ j) ⊎ (k ≢ j)
same_text k j = elim (Bool-cases (text_eq k j)) [
  | inl same ↦ inl (text_eq_sound k j same)
  | inr differ ↦ inr (λ e. cc (differ, text_eq_refl k, e))
]

pub same_number : (k j : ℕ) → (k ≡ j) ⊎ (k ≢ j)
same_number k j = elim (Bool-cases (k == j)) [
  | inl same ↦ inl ((==_iff k j).0 same)
  | inr differ ↦ inr (ground arith)
]

-- What the cache knows of a session is what its row says; of a browser session not the scopes.
pub record Agrees (info : SessionInfo) (row : Session) : Type 0 where
  pub owner : info.id ≡ row.account_id
  pub kind : info.api_key ≡ row.api_key
  pub made : info.created_at ≡ row.created_at
  pub granted : row.api_key ≡ true → info.scopes ≡ row.scopes

pub find_sound {ℓ} :
    {A : Type ℓ} (p : A → Bool) (xs : List A) (a : A) → find p xs ≡ some a → p a ≡ true
find_sound p [] a h = cc
find_sound p (x ∷ xs) a h = elim (Bool-cases (p x)) [
  | inl hit ↦ rw (← some_inj (rw hit at h)) hit
  | inr miss ↦ find_sound p xs a (rw miss at h)
]

-- The first hit, where it is kept, is the first hit of what is kept.
pub find-keep_if {ℓ} :
    {A : Type ℓ} (p f : A → Bool) (xs : List A) (a : A)
    → find p xs ≡ some a
    → f a ≡ true
    → find p (keep_if f xs) ≡ some a
find-keep_if p f [] a h k = cc
find-keep_if p f (x ∷ xs) a h k = elim (Bool-cases (p x)) [
  | inl hit ↦
      let same : x ≡ a = some_inj (rw hit at h) in
      let kept : f x ≡ true = ap f same ∙ k in rw (kept, hit, same)
  | inr miss ↦
      let later = find-keep_if p f xs a (rw miss at h) k in
      elim (Bool-cases (f x)) [ inl kept ↦ rw (kept, miss, later) | inr gone ↦ rw (gone, later) ]
]

module _ (sessions : Cache Text SessionInfo) (users : Cache ℕ Account) (age : ℕ) where
  abbrev pub SessionsAgree : sessions.Table → List Session → Type 0
  SessionsAgree t rows =
      (id : Text) (info : SessionInfo)
      → sessions.get id t ≡ some info
      → (row : Session) × (session_row id rows ≡ some row) × Agrees info row

  abbrev UsersAgree : users.Table → List Account → Type 0
  UsersAgree t accounts =
      (id : ℕ) (a : Account) → users.get id t ≡ some a → account_row id accounts ≡ some a

  -- No session id stands twice.
  abbrev pub UniqueIds : List Session → Type 0
  UniqueIds [] = Unit {0}
  UniqueIds (s ∷ ss) = (any (has_session_id s.id) ss ≡ false) × UniqueIds ss

  pub record Coherent (st : State sessions users age) : Type 0 where
    pub unique : UniqueIds st.rows
    pub sessions_agree : SessionsAgree st.valid_sessions st.rows
    pub users_agree : UsersAgree st.cached_users st.accounts

  pub SessionsAgree-remove :
      (k : Text) (t : sessions.Table) (rows : List Session)
      → SessionsAgree t rows
      → SessionsAgree (sessions.remove k t) rows
  SessionsAgree-remove k t rows h id info e =
      h id info (get-remove_some sessions same_text k id t info e).1

  pub SessionsAgree-insert :
      (k : Text) (u : SessionInfo) (t : sessions.Table) (rows : List Session) (row : Session)
      → session_row k rows ≡ some row
      → Agrees u row
      → SessionsAgree t rows
      → SessionsAgree (sessions.insert k u t) rows
  SessionsAgree-insert k u t rows row found agrees h id info e =
      elim (get-insert_some sessions same_text k id u t info e) [
        | inr old ↦ h id info old
        | inl (same, value) ↦ (row, rw (← same) found, subst (λ i. Agrees i row) value agrees)
      ]

  pub UsersAgree-insert :
      (k : ℕ) (u : Account) (t : users.Table) (accounts : List Account)
      → account_row k accounts ≡ some u
      → UsersAgree t accounts
      → UsersAgree (users.insert k u t) accounts
  UsersAgree-insert k u t accounts found h id a e =
      elim (get-insert_some users same_number k id u t a e) [
        | inr old ↦ h id a old
        | inl (same, value) ↦ rw (← same, ← value) found
      ]

  pub UsersAgree-remove :
      (k : ℕ) (t : users.Table) (accounts : List Account)
      → UsersAgree t accounts
      → UsersAgree (users.remove k t) accounts
  UsersAgree-remove k t accounts h id a e = h id a (get-remove_some users same_number k id t a e).1

  -- A deletion with the cache's entry of what it deletes.
  pub SessionsAgree-delete :
      (k : Text) (t : sessions.Table) (rows : List Session)
      → SessionsAgree t rows
      → SessionsAgree (sessions.remove k t) (keep_if (λ s. not (has_session_id k s)) rows)
  SessionsAgree-delete k t rows h id info e =
      let (other, old) = get-remove_some sessions same_text k id t info e in
      let (row, found, agrees) = h id info old in
      (
        row,
        find-keep_if (has_session_id id) _ rows row found
            (kept row other (find_sound _ rows row found)),
        agrees,
      )
    where
      kept :
          (row : Session)
          → k ≢ id
          → has_session_id id row ≡ true
          → not (has_session_id k row) ≡ true
      kept row other named = elim (Bool-cases (has_session_id k row)) [
        | inr differ ↦ rw differ
        | inl same ↦
            absurd (other (sym (text_eq_sound row.id k same) ∙ text_eq_sound row.id id named))
      ]

  any-keep_if :
      (p f : Session → Bool) (ss : List Session) → any p ss ≡ false → any p (keep_if f ss) ≡ false
  any-keep_if p f [] h = refl
  any-keep_if p f (s ∷ ss) h = elim (Bool-cases (p s)) [
    | inl hit ↦ cc (rw hit at h)
    | inr miss ↦
        let later = any-keep_if p f ss (rw miss at h) in
        elim (Bool-cases (f s)) [ inl kept ↦ rw (kept, miss, later) | inr gone ↦ rw (gone, later) ]
  ]

  pub UniqueIds-keep_if :
      (f : Session → Bool) (ss : List Session) → UniqueIds ss → UniqueIds (keep_if f ss)
  UniqueIds-keep_if f [] h = tt
  UniqueIds-keep_if f (s ∷ ss) h = elim (Bool-cases (f s)) [
    | inl kept ↦ rw kept (any-keep_if _ f ss h.0, UniqueIds-keep_if f ss h.1)
    | inr gone ↦ rw gone (UniqueIds-keep_if f ss h.1)
  ]

  -- A row that a longer condition finds is the row of its id.
  pub unique_row :
      (id : Text) (q : Session → Bool) (ss : List Session) (s : Session)
      → UniqueIds ss
      → find (λ r. has_session_id id r && q r) ss ≡ some s
      → session_row id ss ≡ some s
  unique_row id q [] s u h = cc
  unique_row id q (r ∷ ss) s u h = elim (Bool-cases (has_session_id id r)) [
    | inr miss ↦ rw miss (unique_row id q ss s u.1 (rw miss at h))
    | inl hit ↦ elim (Bool-cases (q r)) [
      | inl both ↦ rw hit (rw (hit, both) at h)
      | inr no_more ↦
          let later = unique_row id q ss s u.1 (rw (hit, no_more) at h) in
          let alone : any (has_session_id id) ss ≡ false = rw (← text_eq_sound r.id id hit) u.0 in
          cc (later, absent ss alone)
    ]
  ]
    where
      absent : (ss : List Session) → any (has_session_id id) ss ≡ false → session_row id ss ≡ none
      absent [] h = refl
      absent (s ∷ ss) h = elim (Bool-cases (has_session_id id s)) [
        | inl hit ↦ cc (rw hit at h)
        | inr miss ↦ rw miss (absent ss (rw miss at h))
      ]
