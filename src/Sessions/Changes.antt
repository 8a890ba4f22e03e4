-- ===== src/Sessions/Changes.antt =====
-- Saving and revoking sessions keeps the caches in agreement with the tables.
use klappstuhl_me.Prelude.{
  ℕ, ◌≡◌, refl, sym, ap, ◌∙◌, Bool, true, false, not, none, some, List, [], ◌∷◌, find, any, keep_if,
  Bool-cases, Option-cases, inl, inr,
}
use klappstuhl_me.Text.{Text}
use klappstuhl_me.Text.Equality.{text_eq_sound, text_eq_ne}
use klappstuhl_me.Account.{Account}
use klappstuhl_me.Cache.{Cache}
use klappstuhl_me.Cache.Reads.{get-remove_some}
use klappstuhl_me.Scope.{Session}
use klappstuhl_me.Sessions.{
  SessionInfo, has_session_id, session_row, account_row, State, invalidate_account_cache,
  insert_row, save_session, forget_all, invalidate_where,
}
use klappstuhl_me.Sessions.Coherence.{
  same_text, find-keep_if, SessionsAgree, Coherent, UsersAgree-remove, UniqueIds-keep_if,
}

module _ (sessions : Cache Text SessionInfo) (users : Cache ℕ Account) (age : ℕ) where
  pub invalidate_account_cache-Coherent :
      (id : ℕ) (st : State sessions users age)
      → Coherent sessions users age st
      → Coherent sessions users age (invalidate_account_cache sessions users age id st)
  unfolding invalidate_account_cache
  invalidate_account_cache-Coherent id st c = record {
    unique = c.unique;
    sessions_agree = c.sessions_agree;
    users_agree = UsersAgree-remove sessions users age id st.cached_users st.accounts c.users_agree;
  }

  fresh_row :
      (s : Session) (rows : List Session)
      → session_row s.id rows ≡ none
      → any (has_session_id s.id) rows ≡ false
  fresh_row s [] h = refl
  fresh_row s (r ∷ rows) h = elim (Bool-cases (has_session_id s.id r)) [
    | inl hit ↦ cc (rw hit at h)
    | inr miss ↦ rw miss (fresh_row s rows (rw miss at h))
  ]

  SessionsAgree-cons :
      (s : Session) (t : sessions.Table) (rows : List Session)
      → session_row s.id rows ≡ none
      → SessionsAgree sessions users age t rows
      → SessionsAgree sessions users age t (s ∷ rows)
  SessionsAgree-cons s t rows fresh h id info e =
      let (row, found, agrees) = h id info e in
      elim (Bool-cases (has_session_id id s)) [
        | inr miss ↦ (row, rw miss found, agrees)
        | inl hit ↦
            cc (found, ap (λ k. session_row k rows) (sym (text_eq_sound s.id id hit)) ∙ fresh)
      ]

  insert_row-Coherent :
      (s : Session) (st : State sessions users age)
      → Coherent sessions users age st
      → Coherent sessions users age (insert_row sessions users age s st)
  insert_row-Coherent s st c = elim (Option-cases (session_row s.id st.rows)) [
    | inr (r, taken) ↦ rw taken c
    | inl fresh ↦ elim (Option-cases (account_row s.account_id st.accounts)) [
      | inl missing ↦ rw (fresh, missing) c
      | inr (a, owned) ↦
          rw (fresh, owned)
            (record {
              unique = (fresh_row s st.rows fresh, c.unique);
              sessions_agree =
                  SessionsAgree-cons s st.valid_sessions st.rows fresh c.sessions_agree;
              users_agree = c.users_agree;
            })
    ]
  ]

  pub save_session-Coherent :
      (up : Bool) (s : Session) (st : State sessions users age)
      → Coherent sessions users age st
      → Coherent sessions users age (save_session sessions users age up s st)
  unfolding save_session
  save_session-Coherent true s st c = insert_row-Coherent s st c
  save_session-Coherent false s st c = c

  get-forget_all :
      (j : Text) (ss : List Session) (t : sessions.Table) (v : SessionInfo)
      → sessions.get j (forget_all sessions users age ss t) ≡ some v
      → (sessions.get j t ≡ some v) × (any (has_session_id j) ss ≡ false)
  unfolding forget_all
  get-forget_all j [] t v h = (h, refl)
  get-forget_all j (s ∷ ss) t v h =
      let (before, others) = get-forget_all j ss (sessions.remove s.id t) v h in
      let (other, old) = get-remove_some sessions same_text s.id j t v before in
      (old, rw (text_eq_ne s.id j other) others)

  any_of_find :
      (p : Session → Bool) (ss : List Session) (r : Session) → find p ss ≡ some r → any p ss ≡ true
  any_of_find p [] r h = cc
  any_of_find p (s ∷ ss) r h = elim (Bool-cases (p s)) [
    | inl hit ↦ rw hit
    | inr miss ↦ rw miss (any_of_find p ss r (rw miss at h))
  ]

  pub invalidate_where-Coherent :
      (up : Bool) (doomed : Session → Bool) (st : State sessions users age)
      → Coherent sessions users age st
      → Coherent sessions users age (invalidate_where sessions users age up doomed st)
  unfolding invalidate_where
  invalidate_where-Coherent false doomed st c = c
  invalidate_where-Coherent true doomed st c = record {
    unique = UniqueIds-keep_if sessions users age _ st.rows c.unique;
    sessions_agree = λ id info e.
        let (old, spared) = get-forget_all id (keep_if doomed st.rows) st.valid_sessions info e in
        let (row, found, agrees) = c.sessions_agree id info old in
        (
          row,
          find-keep_if (has_session_id id) _ st.rows row found (kept row id found spared),
          agrees,
        );
    users_agree = c.users_agree;
  }
    where
      kept :
          (row : Session) (id : Text)
          → session_row id st.rows ≡ some row
          → any (has_session_id id) (keep_if doomed st.rows) ≡ false
          → not (doomed row) ≡ true
      kept row id found spared = elim (Bool-cases (doomed row)) [
        | inr safe ↦ rw safe
        | inl gone ↦ cc (
          spared,
          any_of_find (has_session_id id) _ row
              (find-keep_if (has_session_id id) doomed st.rows row found gone),
        )
      ]
