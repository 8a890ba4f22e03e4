-- ===== src/Sessions/Absence.antt =====
-- An id without a row gets none from any call but the one that saves it.
use klappstuhl_me.Prelude.{
  ℕ, ◌≡◌, refl, Bool, true, false, not, Option, none, some, List, [], ◌∷◌, if◌then◌else◌, find,
  keep_if, any, some_inj, ap, ◌∙◌, All, Bool-cases, inl, inr,
}
use klappstuhl_me.Sessions.Coherence.{UniqueIds}
use klappstuhl_me.Text.Equality.{text_eq_sound}
use klappstuhl_me.Text.{Text, text_eq}
use klappstuhl_me.Account.{Account}
use klappstuhl_me.Cache.{Cache}
use klappstuhl_me.Scope.{Session, is_key_of}
use klappstuhl_me.Sessions.{
  SessionInfo, info_of, joined_info, is_expired, has_session_id, session_row, is_login_of, State,
  invalidate_session, from_row, from_cache, is_session_valid, get_account, account_from_row,
  account_from_cache, invalidate_account_cache, drop_orphan, remember_both, session_account,
  get_session_account, insert_unless, save_session, invalidate_where, invalidate_api_keys,
  invalidate_account_sessions,
}
use klappstuhl_me.Sessions.Answers.{
  Call, validate, resolve, load, refresh, log_out, log_out_everywhere, revoke_keys, save, step, run,
}

absent-keep_if {ℓ} :
    {A : Type ℓ} (p f : A → Bool) (xs : List A) → find p xs ≡ none → find p (keep_if f xs) ≡ none
absent-keep_if p f [] h = refl
absent-keep_if p f (x ∷ xs) h = elim (Bool-cases (p x)) [
  | inl hit ↦ cc (rw hit at h)
  | inr miss ↦
      let later = absent-keep_if p f xs (rw miss at h) in
      elim (Bool-cases (f x)) [ inl kept ↦ rw (kept, miss, later) | inr gone ↦ rw (gone, later) ]
]

pub gone-keep_if :
    (id : Text) (rows : List Session)
    → session_row id (keep_if (λ s. not (has_session_id id s)) rows) ≡ none
gone-keep_if id [] = refl
gone-keep_if id (s ∷ rows) = elim (Bool-cases (has_session_id id s)) [
  | inl hit ↦ rw hit (gone-keep_if id rows)
  | inr miss ↦ rw (miss, miss) (gone-keep_if id rows)
]

absent_of_any :
    (id : Text) (rows : List Session)
    → any (has_session_id id) rows ≡ false
    → session_row id rows ≡ none
absent_of_any id [] h = refl
absent_of_any id (s ∷ rows) h = elim (Bool-cases (has_session_id id s)) [
  | inl hit ↦ cc (rw hit at h)
  | inr miss ↦ rw miss (absent_of_any id rows (rw miss at h))
]

module _ (sessions : Cache Text SessionInfo) (users : Cache ℕ Account) (age : ℕ) where
  pub doomed-keep_if :
      (id : Text) (doomed : Session → Bool) (rows : List Session) (row : Session)
      → UniqueIds sessions users age rows
      → session_row id rows ≡ some row
      → doomed row ≡ true
      → session_row id (keep_if (λ s. not (doomed s)) rows) ≡ none
  doomed-keep_if id doomed [] row u h d = cc
  doomed-keep_if id doomed (s ∷ rows) row u h d = elim (Bool-cases (has_session_id id s)) [
    | inl hit ↦
        let same : s ≡ row = some_inj (rw hit at h) in
        let gone : doomed s ≡ true = ap doomed same ∙ d in
        let alone : any (has_session_id id) rows ≡ false = rw (← text_eq_sound s.id id hit) u.0 in
        rw gone (absent-keep_if _ _ rows (absent_of_any id rows alone))
    | inr miss ↦
        let later = doomed-keep_if id doomed rows row u.1 (rw miss at h) d in
        elim (Bool-cases (doomed s)) [ inl gone ↦ rw gone later | inr kept ↦ rw (kept, miss) later ]
  ]

-- A call that does not save the id anew.
abbrev pub Spares : Text → Call → Type 0
Spares id (save up s) = text_eq s.id id ≡ false
Spares id _ = Unit {0}

module _ (sessions : Cache Text SessionInfo) (users : Cache ℕ Account) (age : ℕ) (id : Text) where
  abbrev pub Absent : State sessions users age → Type 0
  Absent st = session_row id st.rows ≡ none

  pub Absent-invalidate_session :
      (up : Bool) (other : Text) (st : State sessions users age)
      → Absent st
      → Absent (invalidate_session sessions users age up other st)
  unfolding invalidate_session
  Absent-invalidate_session true other st h = absent-keep_if _ _ st.rows h
  Absent-invalidate_session false other st h = h

  Absent-is_session_valid :
      (up : Bool) (now : ℕ) (other : Text) (st : State sessions users age)
      → Absent st
      → Absent (is_session_valid sessions users age up now other st).0
  unfolding is_session_valid
  Absent-is_session_valid up now other st h = from (sessions.get other st.valid_sessions)
    where
      aged :
          (info : SessionInfo) (next : State sessions users age × Option SessionInfo)
          → Absent next.0
          → Absent
              (if is_expired age now info
                then (invalidate_session sessions users age up other st, none)
                else next).0
      aged info next k = elim (Bool-cases (is_expired age now info)) [
        | inl old ↦ rw old (Absent-invalidate_session up other st h)
        | inr live ↦ rw live k
      ]

      from_table : (o : Option Session) → Absent (from_row sessions users age up now other st o).0
      from_table none = h
      from_table (some row) = aged (info_of row) _ h

      from : (o : Option SessionInfo) → Absent (from_cache sessions users age up now other st o).0
      from none = from_table _
      from (some info) = aged info _ h

  Absent-get_account :
      (up : Bool) (n : ℕ) (st : State sessions users age)
      → Absent st
      → Absent (get_account sessions users age up n st).0
  unfolding get_account
  Absent-get_account up n st h = from (users.get n st.cached_users)
    where
      from_table : (o : Option Account) → Absent (account_from_row sessions users age st o).0
      from_table none = h
      from_table (some a) = h

      from : (o : Option Account) → Absent (account_from_cache sessions users age up n st o).0
      from none = from_table _
      from (some a) = h

  Absent-get_session_account :
      (up : Bool) (now : ℕ) (other : Text) (n : ℕ) (st : State sessions users age)
      → Absent st
      → Absent (get_session_account sessions users age up now other n false st).0
  unfolding get_session_account
  Absent-get_session_account up now other n st h = from (sessions.get other st.valid_sessions)
    where
      aged :
          (info : SessionInfo) (next : State sessions users age × Option Account)
          → Absent next.0
          → Absent
              (if is_expired age now info
                then (invalidate_session sessions users age up other st, none)
                else next).0
      aged info next k = elim (Bool-cases (is_expired age now info)) [
        | inl old ↦ rw old (Absent-invalidate_session up other st h)
        | inr live ↦ rw live k
      ]

      dropped :
          (r : State sessions users age × Option Account)
          → Absent r.0
          → Absent (drop_orphan sessions users age other r).0
      dropped (s, none) k = k
      dropped (s, some a) k = k

      joined :
          (o : Option (Session × Account))
          → Absent (remember_both sessions users age up now other st o).0
      joined none = h
      joined (some (s, a)) = aged (joined_info s) _ h

      from :
          (o : Option SessionInfo)
          → Absent (session_account sessions users age up now other n false st o).0
      from none = joined _
      from (some info) = aged info _ (dropped _ (Absent-get_account up info.id st h))

  Absent-invalidate_where :
      (up : Bool) (doomed : Session → Bool) (st : State sessions users age)
      → Absent st
      → Absent (invalidate_where sessions users age up doomed st)
  unfolding invalidate_where
  Absent-invalidate_where true doomed st h = absent-keep_if _ _ st.rows h
  Absent-invalidate_where false doomed st h = h

  pub Absent-save_session :
      (up : Bool) (s : Session) (st : State sessions users age)
      → text_eq s.id id ≡ false
      → Absent st
      → Absent (save_session sessions users age up s st)
  unfolding save_session
  Absent-save_session false s st other h = h
  Absent-save_session true s st other h = from _ _
    where
      from :
          (taken : Option Session) (owner : Option Account)
          → Absent (insert_unless sessions users age s st taken owner)
      from (some r) owner = h
      from none none = h
      from none (some a) = rw other h

  Absent-step :
      (call : Call) (st : State sessions users age)
      → Spares id call
      → Absent st
      → Absent (step sessions users age call st)
  unfolding step invalidate_account_sessions invalidate_api_keys invalidate_account_cache
  Absent-step (validate up now other) st s h = Absent-is_session_valid up now other st h
  Absent-step (resolve up now other n) st s h = Absent-get_session_account up now other n st h
  Absent-step (load up n) st s h = Absent-get_account up n st h
  Absent-step (refresh n) st s h = h
  Absent-step (log_out up other) st s h = Absent-invalidate_session up other st h
  Absent-step (log_out_everywhere up n) st s h = Absent-invalidate_where up (is_login_of n) st h
  Absent-step (revoke_keys up n) st s h = Absent-invalidate_where up (is_key_of n) st h
  Absent-step (save up r) st s h = Absent-save_session up r st s h

  pub Absent-run :
      (calls : List Call) (st : State sessions users age)
      → All (Spares id) calls
      → Absent st
      → Absent (run sessions users age calls st)
  unfolding run
  Absent-run [] st s h = h
  Absent-run (call ∷ calls) st s h =
      Absent-run calls (step sessions users age call st) s.1 (Absent-step call st s.0 h)
