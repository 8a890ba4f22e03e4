-- ===== src/Sessions/Preservation.antt =====
-- A look at a session or at an account keeps the caches in agreement with the tables.
use klappstuhl_me.Prelude.{
  ℕ, ◌≡◌, refl, ap, ◌∙◌, Bool, true, false, Option, none, some, List, ==_iff, Bool-cases, inl, inr,
}
use klappstuhl_me.Text.{Text}
use klappstuhl_me.Account.{Account}
use klappstuhl_me.Cache.{Cache}
use klappstuhl_me.Scope.{Session}
use klappstuhl_me.Sessions.{
  SessionInfo, info_of, is_expired, session_row, account_row, State, invalidate_session, remember,
  from_row, from_cache, lookup_row, is_session_valid, account_from_row, get_account,
  account_from_cache,
}
use klappstuhl_me.Sessions.Coherence.{
  Agrees, find_sound, Coherent, SessionsAgree-remove, SessionsAgree-insert, UsersAgree-insert,
  SessionsAgree-delete, UniqueIds-keep_if,
}

module _ (sessions : Cache Text SessionInfo) (users : Cache ℕ Account) (age : ℕ) where
  pub invalidate_session-Coherent :
      (up : Bool) (id : Text) (st : State sessions users age)
      → Coherent sessions users age st
      → Coherent sessions users age (invalidate_session sessions users age up id st)
  unfolding invalidate_session
  invalidate_session-Coherent true id st c = record {
    unique = UniqueIds-keep_if sessions users age _ st.rows c.unique;
    sessions_agree =
        SessionsAgree-delete sessions users age id st.valid_sessions st.rows c.sessions_agree;
    users_agree = c.users_agree;
  }
  invalidate_session-Coherent false id st c = record {
    unique = c.unique;
    sessions_agree =
        SessionsAgree-remove sessions users age id st.valid_sessions st.rows c.sessions_agree;
    users_agree = c.users_agree;
  }

  remember-Coherent :
      (up : Bool) (now : ℕ) (id : Text) (info : SessionInfo) (row : Session)
      (st : State sessions users age)
      → session_row id st.rows ≡ some row
      → Agrees info row
      → Coherent sessions users age st
      → Coherent sessions users age (remember sessions users age up now id info st).0
  remember-Coherent up now id info row st found agrees c =
      elim (Bool-cases (is_expired age now info)) [
        | inl old ↦ rw old (invalidate_session-Coherent up id st c)
        | inr live ↦ rw live (record {
          unique = c.unique;
          sessions_agree =
              SessionsAgree-insert sessions users age id info st.valid_sessions st.rows row found
                agrees c.sessions_agree;
          users_agree = c.users_agree;
        })
      ]

  pub info_of-Agrees : (row : Session) → Agrees (info_of row) row
  info_of-Agrees row = record { owner = refl; kind = refl; made = refl; granted = λ _. refl }

  from_row-Coherent :
      (up : Bool) (now : ℕ) (id : Text) (st : State sessions users age) (row : Option Session)
      → lookup_row sessions users age up id st ≡ row
      → Coherent sessions users age st
      → Coherent sessions users age (from_row sessions users age up now id st row).0
  from_row-Coherent up now id st none h c = c
  from_row-Coherent true now id st (some row) h c =
      remember-Coherent true now id (info_of row) row st h (info_of-Agrees row) c
  from_row-Coherent false now id st (some row) h c = cc

  pub is_session_valid-Coherent :
      (up : Bool) (now : ℕ) (id : Text) (st : State sessions users age)
      → Coherent sessions users age st
      → Coherent sessions users age (is_session_valid sessions users age up now id st).0
  unfolding is_session_valid
  is_session_valid-Coherent up now id st c = from (sessions.get id st.valid_sessions)
    where
      from :
          (o : Option SessionInfo)
          → Coherent sessions users age (from_cache sessions users age up now id st o).0
      from none = from_row-Coherent up now id st _ refl c
      from (some info) = elim (Bool-cases (is_expired age now info)) [
        | inl old ↦ rw old (invalidate_session-Coherent up id st c)
        | inr live ↦ rw live c
      ]

  pub account_row_own :
      (id : ℕ) (accounts : List Account) (a : Account)
      → account_row id accounts ≡ some a
      → account_row a.id accounts ≡ some a
  account_row_own id accounts a h =
      ap (λ n. account_row n accounts) ((==_iff a.id id).0 (find_sound _ accounts a h)) ∙ h

  account_from_row-Coherent :
      (id : ℕ) (st : State sessions users age) (o : Option Account)
      → ((a : Account) → o ≡ some a → account_row id st.accounts ≡ some a)
      → Coherent sessions users age st
      → Coherent sessions users age (account_from_row sessions users age st o).0
  account_from_row-Coherent id st none h c = c
  account_from_row-Coherent id st (some a) h c = record {
    unique = c.unique;
    sessions_agree = c.sessions_agree;
    users_agree =
        UsersAgree-insert sessions users age a.id a st.cached_users st.accounts
          (account_row_own id st.accounts a (h a refl)) c.users_agree;
  }

  pub get_account-Coherent :
      (up : Bool) (id : ℕ) (st : State sessions users age)
      → Coherent sessions users age st
      → Coherent sessions users age (get_account sessions users age up id st).0
  unfolding get_account
  get_account-Coherent up id st c = from up (users.get id st.cached_users)
    where
      from :
          (up : Bool) (o : Option Account)
          → Coherent sessions users age (account_from_cache sessions users age up id st o).0
      from up (some a) = c
      from true none = account_from_row-Coherent id st _ (λ a h. h) c
      from false none = account_from_row-Coherent id st none (λ a h. cc) c
