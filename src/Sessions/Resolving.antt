-- ===== src/Sessions/Resolving.antt =====
-- The account of a session: its resolution keeps the caches in agreement with the tables.
use klappstuhl_me.Prelude.{
  ℕ, ◌≡◌, refl, subst, Bool, true, false, Option, none, some, if◌then◌else◌, find, Bool-cases,
  Option-cases, inl, inr, some_inj, and_right, false_of_not,
}
use klappstuhl_me.Text.{Text}
use klappstuhl_me.Account.{Account}
use klappstuhl_me.Cache.{Cache}
use klappstuhl_me.Scope.{Session}
use klappstuhl_me.Sessions.{
  SessionInfo, joined_info, is_expired, session_row, account_row, State, drop_orphan, is_asked,
  join_account, remember_both, session_account, get_session_account,
}
use klappstuhl_me.Sessions.Coherence.{
  find_sound, UniqueIds, Coherent, SessionsAgree-remove, SessionsAgree-insert, UsersAgree-insert,
  unique_row,
}
use klappstuhl_me.Sessions.Preservation.{
  invalidate_session-Coherent, get_account-Coherent, account_row_own,
}

module _ (sessions : Cache Text SessionInfo) (users : Cache ℕ Account) (age : ℕ) where
  drop_orphan-Coherent :
      (session : Text) (r : State sessions users age × Option Account)
      → Coherent sessions users age r.0
      → Coherent sessions users age (drop_orphan sessions users age session r).0
  drop_orphan-Coherent session (st, some a) c = c
  drop_orphan-Coherent session (st, none) c = record {
    unique = c.unique;
    sessions_agree =
        SessionsAgree-remove sessions users age session st.valid_sessions st.rows c.sessions_agree;
    users_agree = c.users_agree;
  }

  remember_both-Coherent :
      (up : Bool) (now : ℕ) (session : Text) (st : State sessions users age)
      (o : Option (Session × Account))
      → ((s : Session) (a : Account)
          → o ≡ some (s, a)
          → (session_row session st.rows ≡ some s)
            × (account_row s.account_id st.accounts ≡ some a)
            × (s.api_key ≡ false))
      → Coherent sessions users age st
      → Coherent sessions users age (remember_both sessions users age up now session st o).0
  remember_both-Coherent up now session st none h c = c
  remember_both-Coherent up now session st (some (s, a)) h c =
      let (found, owned, browser) = h s a refl in
      elim (Bool-cases (is_expired age now (joined_info s))) [
        | inl old ↦ rw old (invalidate_session-Coherent sessions users age up session st c)
        | inr live ↦ rw live (record {
          unique = c.unique;
          sessions_agree =
              SessionsAgree-insert sessions users age session (joined_info s) st.valid_sessions
                st.rows s found
                (record {
                  owner = refl;
                  kind = refl;
                  made = refl;
                  granted = λ key. cc (key, browser);
                })
                c.sessions_agree;
          users_agree =
              UsersAgree-insert sessions users age a.id a st.cached_users st.accounts
                (account_row_own sessions users age s.account_id st.accounts a owned) c.users_agree;
        })
      ]

  joined_row :
      (up : Bool) (session : Text) (id : ℕ) (st : State sessions users age) (s : Session)
      (a : Account)
      → UniqueIds sessions users age st.rows
      → (if up
          then join_account sessions users age st
              (find (is_asked sessions users age session id false) st.rows)
          else none)
        ≡ some (s, a)
      → (session_row session st.rows ≡ some s)
        × (account_row s.account_id st.accounts ≡ some a)
        × (s.api_key ≡ false)
  joined_row false session id st s a u h = cc
  joined_row true session id st s a u h = of_row _ refl h
    where
      of_row :
          (o : Option Session)
          → find (is_asked sessions users age session id false) st.rows ≡ o
          → join_account sessions users age st o ≡ some (s, a)
          → (session_row session st.rows ≡ some s)
            × (account_row s.account_id st.accounts ≡ some a)
            × (s.api_key ≡ false)
      of_row none e k = cc
      of_row (some r) e k = elim (Option-cases (account_row r.account_id st.accounts)) [
        | inl ownerless ↦ cc (rw ownerless at k)
        | inr (b, owned) ↦
            let same : (r, b) ≡ (s, a) = some_inj (rw owned at k) in
            let asked = find_sound (is_asked sessions users age session id false) st.rows r e in
            subst
              (λ (p : Session × Account).
                (session_row session st.rows ≡ some p.0)
                × (account_row p.0.account_id st.accounts ≡ some p.1)
                × (p.0.api_key ≡ false))
              same
              (
                unique_row sessions users age session _ st.rows r u e,
                owned,
                false_of_not r.api_key (and_right _ _ (and_right _ _ asked)),
              )
      ]

  -- The extractor asks for browser sessions.
  pub get_session_account-Coherent :
      (up : Bool) (now : ℕ) (session : Text) (id : ℕ) (st : State sessions users age)
      → Coherent sessions users age st
      → Coherent sessions users age
          (get_session_account sessions users age up now session id false st).0
  unfolding get_session_account
  get_session_account-Coherent up now session id st c =
      from (sessions.get session st.valid_sessions)
    where
      from :
          (o : Option SessionInfo)
          → Coherent sessions users age
              (session_account sessions users age up now session id false st o).0
      from (some info) = elim (Bool-cases (is_expired age now info)) [
        | inl old ↦ rw old (invalidate_session-Coherent sessions users age up session st c)
        | inr live ↦ rw live (
            drop_orphan-Coherent session _
              (get_account-Coherent sessions users age up info.id st c))
      ]
      from none =
          remember_both-Coherent up now session st _
            (λ s a h. joined_row up session id st s a c.unique h) c
