-- ===== src/Sessions/Answers.antt =====
-- Any sequence of calls on sessions, and that the cache answers as the table does.
use klappstuhl_me.Prelude.{
  ℕ, ◌≡◌, refl, Bool, true, false, Option, none, some, List, [], ◌∷◌, if◌then◌else◌, Bool-cases,
  inl, inr,
}
use klappstuhl_me.Text.{Text}
use klappstuhl_me.Account.{Account}
use klappstuhl_me.Cache.{Cache}
use klappstuhl_me.Scope.{Session, is_key_of}
use klappstuhl_me.Sessions.{
  SessionInfo, info_of, is_expired, session_row, is_login_of, State, invalidate_session,
  is_session_valid, get_account, invalidate_account_cache, get_session_account, save_session,
  invalidate_api_keys, invalidate_account_sessions, from_cache, from_row,
}
use klappstuhl_me.Sessions.Coherence.{Agrees, Coherent}
use klappstuhl_me.Sessions.Preservation.{
  info_of-Agrees, invalidate_session-Coherent, is_session_valid-Coherent, get_account-Coherent,
}
use klappstuhl_me.Sessions.Resolving.{get_session_account-Coherent}
use klappstuhl_me.Sessions.Changes.{
  invalidate_account_cache-Coherent, save_session-Coherent, invalidate_where-Coherent,
}

-- A call, with whether the database answers and the time.
pub data Call : Type 0 where
  validate : Bool → ℕ → Text → Call
  resolve : Bool → ℕ → Text → ℕ → Call
  load : Bool → ℕ → Call
  refresh : ℕ → Call
  log_out : Bool → Text → Call
  log_out_everywhere : Bool → ℕ → Call
  revoke_keys : Bool → ℕ → Call
  save : Bool → Session → Call

module _ (sessions : Cache Text SessionInfo) (users : Cache ℕ Account) (age : ℕ) where
  unfoldable pub step : Call → State sessions users age → State sessions users age
  step (validate up now id) st = (is_session_valid sessions users age up now id st).0
  step (resolve up now session id) st =
      (get_session_account sessions users age up now session id false st).0
  step (load up id) st = (get_account sessions users age up id st).0
  step (refresh id) st = invalidate_account_cache sessions users age id st
  step (log_out up id) st = invalidate_session sessions users age up id st
  step (log_out_everywhere up id) st = invalidate_account_sessions sessions users age up id st
  step (revoke_keys up id) st = invalidate_api_keys sessions users age up id st
  step (save up s) st = save_session sessions users age up s st

  unfoldable pub run : List Call → State sessions users age → State sessions users age
  run [] st = st
  run (call ∷ calls) st = run calls (step call st)

  step-Coherent :
      (call : Call) (st : State sessions users age)
      → Coherent sessions users age st
      → Coherent sessions users age (step call st)
  unfolding step invalidate_account_sessions invalidate_api_keys
  step-Coherent (validate up now id) st c =
      is_session_valid-Coherent sessions users age up now id st c
  step-Coherent (resolve up now session id) st c =
      get_session_account-Coherent sessions users age up now session id st c
  step-Coherent (load up id) st c = get_account-Coherent sessions users age up id st c
  step-Coherent (refresh id) st c = invalidate_account_cache-Coherent sessions users age id st c
  step-Coherent (log_out up id) st c = invalidate_session-Coherent sessions users age up id st c
  step-Coherent (log_out_everywhere up id) st c =
      invalidate_where-Coherent sessions users age up (is_login_of id) st c
  step-Coherent (revoke_keys up id) st c =
      invalidate_where-Coherent sessions users age up (is_key_of id) st c
  step-Coherent (save up s) st c = save_session-Coherent sessions users age up s st c

  -- Any calls, in any order and with any failures of the database, keep the caches in agreement with
  -- the tables.
  pub run-Coherent :
      (calls : List Call) (st : State sessions users age)
      → Coherent sessions users age st
      → Coherent sessions users age (run calls st)
  unfolding run
  run-Coherent [] st c = c
  run-Coherent (call ∷ calls) st c = run-Coherent calls (step call st) (step-Coherent call st c)

  -- The row of the id, if there is one and it has not expired.
  abbrev unexpired : ℕ → Option Session → Option Session
  unexpired now none = none
  unexpired now (some row) = if is_expired age now (info_of row) then none else some row

  abbrev pub live_row : ℕ → Text → List Session → Option Session
  live_row now id rows = unexpired now (session_row id rows)

  -- An answer of the cache is the answer of the table.
  abbrev pub Matches : Option SessionInfo → Option Session → Type 0
  Matches none none = Unit {0}
  Matches none (some row) = ⊥
  Matches (some info) none = ⊥
  Matches (some info) (some row) = Agrees info row

  same_age :
      (now : ℕ) (info : SessionInfo) (row : Session)
      → Agrees info row
      → is_expired age now (info_of row) ≡ is_expired age now info
  unfolding is_expired
  same_age now info row a = rw (a.kind, a.made)

  Matches-from_row :
      (now : ℕ) (id : Text) (st : State sessions users age) (row : Option Session)
      → Matches (from_row sessions users age true now id st row).1 (unexpired now row)
  Matches-from_row now id st none = tt
  Matches-from_row now id st (some row) = elim (Bool-cases (is_expired age now (info_of row))) [
    | inl old ↦ rw old tt
    | inr live ↦ rw live (info_of-Agrees sessions users age row)
  ]

  pub is_session_valid-Matches :
      (now : ℕ) (id : Text) (st : State sessions users age)
      → Coherent sessions users age st
      → Matches (is_session_valid sessions users age true now id st).1 (live_row now id st.rows)
  unfolding is_session_valid
  is_session_valid-Matches now id st c = from (sessions.get id st.valid_sessions) refl
    where
      from :
          (o : Option SessionInfo)
          → sessions.get id st.valid_sessions ≡ o
          → Matches (from_cache sessions users age true now id st o).1 (live_row now id st.rows)
      from none h = Matches-from_row now id st (session_row id st.rows)
      from (some info) h =
          let (row, found, agrees) = c.sessions_agree id info h in
          let aged = same_age now info row agrees in
          elim (Bool-cases (is_expired age now info)) [
            | inl old ↦ rw (old, found, aged, old) tt
            | inr live ↦ rw (live, found, aged, live) agrees
          ]

  -- After any calls on caches that agree with the tables, and with a database that answers, a
  -- session is valid exactly if its row is there and has not expired, and what is answered of it is
  -- what the row says: the caches are not seen.
  pub run-Matches :
      (calls : List Call) (st : State sessions users age) (now : ℕ) (id : Text)
      → Coherent sessions users age st
      → Matches
          (is_session_valid sessions users age true now id (run calls st)).1
          (live_row now id (run calls st).rows)
  run-Matches calls st now id c =
      is_session_valid-Matches now id (run calls st) (run-Coherent calls st c)
