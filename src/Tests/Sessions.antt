-- ===== src/Tests/Sessions.antt =====
-- Examples on sessions and the cache in front of them.
use klappstuhl_me.Prelude.{◌≡◌, refl, true, false, none, some, List, [], ◌∷◌}
use klappstuhl_me.Text.{Text, codes}
use klappstuhl_me.Account.{Account}
use klappstuhl_me.Cache.{unbounded, unbounded_texts}
use klappstuhl_me.Scope.{Session}
use klappstuhl_me.Sessions.{SessionInfo, info_of, State, is_session_valid, get_session_account}
use klappstuhl_me.Sessions.Coherence.{Coherent}
use klappstuhl_me.Sessions.Answers.{
  Call, validate, save, log_out_everywhere, log_out, run, Matches, live_row, run-Matches,
}
use klappstuhl_me.Sessions.Revocation.{revoked_stays, get_session_account-ignores_kind}
use klappstuhl_me.Tests.{alice, bob}

abbrev login : Session
login = record {
  id = codes "a1";
  account_id = 1;
  created_at = 100;
  description = none;
  api_key = false;
  scopes = codes "";
}

abbrev other_login : Session
other_login = record login { id = codes "b1" }

abbrev start : State (unbounded_texts SessionInfo) (unbounded Account) 50
start = record {
  accounts = alice ∷ bob ∷ [];
  rows = login ∷ [];
  valid_sessions = λ k. none;
  cached_users = λ k. none;
}

abbrev cached : State (unbounded_texts SessionInfo) (unbounded Account) 50
cached = record start { valid_sessions = λ k. some (info_of login) }

start-Coherent : Coherent (unbounded_texts SessionInfo) (unbounded Account) 50 start
start-Coherent = record {
  unique = (refl, tt);
  sessions_agree = λ id info e. cc;
  users_agree = λ id a e. cc;
}

abbrev calls : List Call
calls = validate true 120 (codes "a1") ∷ save true other_login ∷ log_out_everywhere true 2 ∷ []

run-Matches_example :
    Matches
      (unbounded_texts SessionInfo)
      (unbounded Account)
      50
      (is_session_valid
        (unbounded_texts SessionInfo)
        (unbounded Account)
        50
        true
        150
        (codes "a1")
        (run (unbounded_texts SessionInfo) (unbounded Account) 50 calls start)).1
      (live_row
        (unbounded_texts SessionInfo)
        (unbounded Account)
        50
        150
        (codes "a1")
        (run (unbounded_texts SessionInfo) (unbounded Account) 50 calls start).rows)
run-Matches_example =
    run-Matches (unbounded_texts SessionInfo) (unbounded Account) 50 calls start 150 (codes "a1")
      start-Coherent

revoked_stays_example :
    (is_session_valid (unbounded_texts SessionInfo) (unbounded Account) 50 true 120 (codes "a1") (
      run
        (unbounded_texts SessionInfo)
        (unbounded Account)
        50
        (log_out true (codes "a1") ∷ calls)
        start)).1
    ≡ none
unfolding klappstuhl_me.Text.text_eq
revoked_stays_example =
    revoked_stays (unbounded_texts SessionInfo) (unbounded Account) 50 (codes "a1") calls start true
      120 start-Coherent (tt, (refl, (tt, tt)))

get_session_account-ignores_kind_example :
    get_session_account
      (unbounded_texts SessionInfo)
      (unbounded Account)
      50
      true
      120
      (codes "a1")
      1
      false
      cached
    ≡ get_session_account
        (unbounded_texts SessionInfo)
        (unbounded Account)
        50
        true
        120
        (codes "a1")
        2
        true
        cached
get_session_account-ignores_kind_example =
    get_session_account-ignores_kind (unbounded_texts SessionInfo) (unbounded Account) 50
      (codes "a1") true 120 1 2 false true cached (info_of login) refl
