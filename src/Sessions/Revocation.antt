-- ===== src/Sessions/Revocation.antt =====
-- A session that was revoked stays revoked; what the cache answers of other kinds of sessions.
use klappstuhl_me.Prelude.{
  ℕ, ◌≡◌, Bool, true, false, none, some, List, ◌∷◌, All, Option-cases, inl, inr,
}
use klappstuhl_me.Text.{Text}
use klappstuhl_me.Account.{Account}
use klappstuhl_me.Cache.{Cache}
use klappstuhl_me.Sessions.{
  SessionInfo, State, invalidate_session, is_session_valid, get_session_account,
}
use klappstuhl_me.Sessions.Coherence.{Coherent}
use klappstuhl_me.Sessions.Answers.{Call, log_out, step, run, run-Coherent}
use klappstuhl_me.Sessions.Absence.{Spares, gone-keep_if, Absent, Absent-run}

module _ (sessions : Cache Text SessionInfo) (users : Cache ℕ Account) (age : ℕ) (id : Text) where
  -- What agrees with a table without the id knows nothing of it.
  uncached :
      (st : State sessions users age)
      → Coherent sessions users age st
      → Absent sessions users age id st
      → sessions.get id st.valid_sessions ≡ none
  uncached st c h = elim (Option-cases (sessions.get id st.valid_sessions)) [
    | inl nothing ↦ nothing
    | inr (info, known) ↦ let (row, found, _) = c.sessions_agree id info known in cc (found, h)
  ]

  pub no_answer :
      (up : Bool) (now : ℕ) (st : State sessions users age)
      → Coherent sessions users age st
      → Absent sessions users age id st
      → (is_session_valid sessions users age up now id st).1 ≡ none
  unfolding is_session_valid
  no_answer true now st c h = rw (uncached st c h, h)
  no_answer false now st c h = rw (uncached st c h)

  -- A session that was logged out while the database answered, from caches that agree with the
  -- tables: after any further calls that do not save its id anew, and whether or not the database
  -- answers then, it is not valid.
  pub revoked_stays :
      (calls : List Call) (st : State sessions users age) (up : Bool) (now : ℕ)
      → Coherent sessions users age st
      → All (Spares id) calls
      → (is_session_valid sessions users age up now id
          (run sessions users age (log_out true id ∷ calls) st)).1
        ≡ none
  revoked_stays calls st up now c spares =
      no_answer up now (run sessions users age (log_out true id ∷ calls) st)
        (run-Coherent sessions users age (log_out true id ∷ calls) st c)
        (unfold run in
          unfold step in
          Absent-run sessions users age id calls (invalidate_session sessions users age true id st)
            spares (unfold invalidate_session in gone-keep_if id st.rows))

  -- A cached session that has not expired resolves whichever account and kind is asked for.
  pub get_session_account-ignores_kind :
      (up : Bool) (now asked other : ℕ) (kind wanted : Bool) (st : State sessions users age)
      (info : SessionInfo)
      → sessions.get id st.valid_sessions ≡ some info
      → get_session_account sessions users age up now id asked kind st
        ≡ get_session_account sessions users age up now id other wanted st
  unfolding get_session_account
  get_session_account-ignores_kind up now asked other kind wanted st info known = rw known
