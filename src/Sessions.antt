-- ===== src/Sessions.antt =====
-- The sessions of src/core/state.rs: the table, the cache in front of it, and the accounts that it
-- resolves to. The two caches are parameters; a call runs alone, so that a guard of the cache is the
-- insertion at its end. `accounts` holds the rows as the query joins them.
pub mod Coherence
pub mod Preservation
pub mod Resolving
pub mod Changes
pub mod Answers
pub mod Absence
pub mod Revocation
use klappstuhl_me.Prelude.{
  ℕ, ◌+◌, Bool, true, false, not, ◌&&◌, Option, none, some, List, [], ◌∷◌, if◌then◌else◌, ltb, ◌==◌,
  find, keep_if,
}
use klappstuhl_me.Text.{Text, text_eq, codes, is_empty}
use klappstuhl_me.Account.{Account}
use klappstuhl_me.Cache.{Cache}
use klappstuhl_me.Scope.{Scope, Session, with_scopes, is_key_of, without_keys_of}

pub record SessionInfo : Type 0 where
  pub id : ℕ
  pub api_key : Bool
  pub created_at : ℕ
  pub scopes : Text

-- `SessionInfo::from`.
abbrev pub info_of : Session → SessionInfo
info_of s = record {
  id = s.account_id;
  api_key = s.api_key;
  created_at = s.created_at;
  scopes = s.scopes;
}

-- What the joined query of `get_session_account` keeps: a browser session needs no scopes.
abbrev pub joined_info : Session → SessionInfo
joined_info s = record (info_of s) { scopes = [] }

-- The greatest age of a browser session is a constant of kls_web_core.
unfoldable pub is_expired : ℕ → ℕ → SessionInfo → Bool
is_expired max_token_age now info = not info.api_key && ltb (info.created_at + max_token_age) now

abbrev pub has_session_id : Text → Session → Bool
has_session_id id s = text_eq s.id id

abbrev pub session_row : Text → List Session → Option Session
session_row id rows = find (has_session_id id) rows

abbrev pub account_row : ℕ → List Account → Option Account
account_row id accounts = find (λ (a : Account). a.id == id) accounts

abbrev pub is_login_of : ℕ → Session → Bool
is_login_of id s = (s.account_id == id) && not s.api_key

module _ (sessions : Cache Text SessionInfo) (users : Cache ℕ Account) (max_token_age : ℕ) where
  pub record State : Type 0 where
    pub accounts : List Account
    pub rows : List Session
    pub valid_sessions : sessions.Table
    pub cached_users : users.Table

  -- A statement changes nothing where the database does not answer.
  abbrev pub answered : Bool → List Session → List Session → List Session
  answered up after before = if up then after else before

  unfoldable pub invalidate_session : Bool → Text → State → State
  invalidate_session up id st = record st {
    valid_sessions = sessions.remove id st.valid_sessions;
    rows = answered up (keep_if (λ s. not (has_session_id id s)) st.rows) st.rows;
  }

  abbrev pub remember : Bool → ℕ → Text → SessionInfo → State → State × Option SessionInfo
  remember up now id info st =
      if is_expired max_token_age now info
      then (invalidate_session up id st, none)
      else (record st { valid_sessions = sessions.insert id info st.valid_sessions }, some info)

  abbrev pub lookup_row : Bool → Text → State → Option Session
  lookup_row up id st = if up then session_row id st.rows else none

  abbrev pub from_row : Bool → ℕ → Text → State → Option Session → State × Option SessionInfo
  from_row up now id st none = (st, none)
  from_row up now id st (some row) = remember up now id (info_of row) st

  abbrev pub from_cache : Bool → ℕ → Text → State → Option SessionInfo → State × Option SessionInfo
  from_cache up now id st none = from_row up now id st (lookup_row up id st)
  from_cache up now id st (some info) =
      if is_expired max_token_age now info
      then (invalidate_session up id st, none)
      else (st, some info)

  unfoldable pub is_session_valid : Bool → ℕ → Text → State → State × Option SessionInfo
  is_session_valid up now id st = from_cache up now id st (sessions.get id st.valid_sessions)

  abbrev pub account_from_row : State → Option Account → State × Option Account
  account_from_row st none = (st, none)
  account_from_row st (some a) =
      (record st { cached_users = users.insert a.id a st.cached_users }, some a)

  abbrev pub account_from_cache : Bool → ℕ → State → Option Account → State × Option Account
  account_from_cache up id st (some a) = (st, some a)
  account_from_cache up id st none =
      account_from_row st (if up then account_row id st.accounts else none)

  unfoldable pub get_account : Bool → ℕ → State → State × Option Account
  get_account up id st = account_from_cache up id st (users.get id st.cached_users)

  unfoldable pub invalidate_account_cache : ℕ → State → State
  invalidate_account_cache id st = record st { cached_users = users.remove id st.cached_users }

  -- A session whose account is gone leaves the cache.
  abbrev pub drop_orphan : Text → State × Option Account → State × Option Account
  drop_orphan session (st, some a) = (st, some a)
  drop_orphan session (st, none) =
      (record st { valid_sessions = sessions.remove session st.valid_sessions }, none)

  -- The row that the joined query finds, with its account.
  abbrev pub is_asked : Text → ℕ → Bool → Session → Bool
  is_asked session id api_key s =
      text_eq s.id session
      && ((s.account_id == id) && (if api_key then s.api_key else not s.api_key))

  abbrev paired : Session → Option Account → Option (Session × Account)
  paired s none = none
  paired s (some a) = some (s, a)

  abbrev pub join_account : State → Option Session → Option (Session × Account)
  join_account st none = none
  join_account st (some s) = paired s (account_row s.account_id st.accounts)

  abbrev pub remember_both :
      Bool → ℕ → Text → State → Option (Session × Account) → State × Option Account
  remember_both up now session st none = (st, none)
  remember_both up now session st (some (s, a)) =
      if is_expired max_token_age now (joined_info s)
      then (invalidate_session up session st, none)
      else (
        record st {
          valid_sessions = sessions.insert session (joined_info s) st.valid_sessions;
          cached_users = users.insert a.id a st.cached_users;
        },
        some a,
      )

  abbrev pub session_account :
      Bool → ℕ → Text → ℕ → Bool → State → Option SessionInfo → State × Option Account
  session_account up now session id api_key st (some info) =
      if is_expired max_token_age now info
      then (invalidate_session up session st, none)
      else drop_orphan session (get_account up info.id st)
  session_account up now session id api_key st none =
      remember_both up now session st
        (if up then join_account st (find (is_asked session id api_key) st.rows) else none)

  unfoldable pub get_session_account : Bool → ℕ → Text → ℕ → Bool → State → State × Option Account
  unfolding get_account
  get_session_account up now session id api_key st =
      session_account up now session id api_key st (sessions.get session st.valid_sessions)

  -- `ON CONFLICT DO NOTHING`; a token that names no account is refused too.
  abbrev pub insert_unless : Session → State → Option Session → Option Account → State
  insert_unless s st (some taken) owner = st
  insert_unless s st none none = st
  insert_unless s st none (some owner) = record st { rows = s ∷ st.rows }

  abbrev pub insert_row : Session → State → State
  insert_row s st =
      insert_unless s st (session_row s.id st.rows) (account_row s.account_id st.accounts)

  unfoldable pub save_session : Bool → Session → State → State
  save_session up s st = if up then insert_row s st else st

  unfoldable pub forget_all : List Session → sessions.Table → sessions.Table
  forget_all [] t = t
  forget_all (s ∷ ss) t = forget_all ss (sessions.remove s.id t)

  -- `DELETE … RETURNING *` of the rows of a kind; the cache forgets what was returned.
  unfoldable pub invalidate_where : Bool → (Session → Bool) → State → State
  unfolding forget_all
  invalidate_where up doomed st =
      if up
      then record st {
        rows = keep_if (λ s. not (doomed s)) st.rows;
        valid_sessions = forget_all (keep_if doomed st.rows) st.valid_sessions;
      }
      else st

  unfoldable pub invalidate_api_keys : Bool → ℕ → State → State
  invalidate_api_keys up id st = invalidate_where up (is_key_of id) st

  unfoldable pub invalidate_account_sessions : Bool → ℕ → State → State
  invalidate_account_sessions up id st = invalidate_where up (is_login_of id) st
