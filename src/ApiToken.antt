-- ===== src/ApiToken.antt =====
-- src/site/api/auth.rs: the key of a request to the API, and what it may do; and the two handlers of
-- src/site/account/sessions.rs. The signature of a session token is checked by kls_web_core: its
-- reader, from a text to an account and a session id, is an argument.
pub mod Laws
pub mod Renaming
use klappstuhl_me.Prelude.{
  ℕ, Bool, true, false, not, ◌&&◌, ◌||◌, Option, none, some, List, [], ◌∷◌, map, if◌then◌else◌, ltb,
  ◌==◌, any,
}
use klappstuhl_me.Text.{
  Text, codes, text_eq, is_whitespace, trim, trim_start, lower, is_empty, byte_len,
}
use klappstuhl_me.Account.{Account}
use klappstuhl_me.Scope.{Scope, Session, scope_eq, split_commas, known_scopes}
use klappstuhl_me.Sessions.{
  SessionInfo, State, is_session_valid, get_account, invalidate_session, has_session_id,
}
use klappstuhl_me.Site.{Site, Request, Store, AppState, audited, on_store}

pub record ApiToken : Type 0 where
  pub id : ℕ
  pub scopes : Text

-- A scheme in lower case at the start, in any case.
unfoldable after_scheme : Text → Text → Option Text
unfolding lower
after_scheme [] s = some s
after_scheme (c ∷ word) [] = none
after_scheme (c ∷ word) (d ∷ s) =
    let rest = after_scheme word s in if lower d == c then rest else none

abbrev after_blank : Option Text → Option Text
after_blank none = none
after_blank (some []) = none
after_blank (some (c ∷ s)) = if is_whitespace c then some (trim_start s) else none

abbrev or_raw : Text → Option Text → Text
or_raw raw none = raw
or_raw raw (some key) = key

unfoldable first_scheme : List Text → Text → Text
unfolding after_scheme is_whitespace trim_start
first_scheme [] raw = raw
first_scheme (scheme ∷ schemes) raw =
    or_raw (first_scheme schemes raw) (after_blank (after_scheme scheme raw))

unfoldable pub strip_scheme : Text → Text
unfolding first_scheme trim
strip_scheme raw = first_scheme (codes "bearer" ∷ codes "key" ∷ codes "token" ∷ []) (trim raw)

unfoldable pub token_allows : ApiToken → Scope → Bool
unfolding split_commas trim known_scopes scope_eq
token_allows token needed =
    if is_empty token.scopes
    then true
    else any (scope_eq needed) (known_scopes (map trim (split_commas token.scopes)))

abbrev token_of : Option SessionInfo → Option ApiToken
token_of none = none
token_of (some info) =
    if info.api_key then some (record { id = info.id; scopes = info.scopes }) else none

pub data Access : Type 0 where
  unauthorized : Access
  forbidden : Access
  granted_to : Account → Access

pub data Status : Type 0 where
  no_content : Status
  bad_request : Status
  not_found : Status
  server_error : Status

module _ (site : Site) where
  abbrev pub with_token : Store site × Option SessionInfo → Store site × Option ApiToken
  with_token (st, info) = (st, token_of info)

  abbrev extract_from : Bool → ℕ → Option Text → Store site → Store site × Option ApiToken
  extract_from up now none st = (st, none)
  extract_from up now (some header) st =
      with_token (
        is_session_valid site.sessions site.users site.max_token_age up now (strip_scheme header)
          st)

  -- The header is `Authorization`, if its value is text.
  unfoldable pub extract_api_token_from_headers :
      Bool → ℕ → Option Text → Store site → Store site × Option ApiToken
  unfolding strip_scheme
  extract_api_token_from_headers up now header st = extract_from up now header st

  abbrev pub caller : Store site × Option Account → Store site × Access
  caller (st, none) = (st, unauthorized)
  caller (st, some a) = (st, granted_to a)

  unfoldable pub require_account : Bool → Scope → ApiToken → Store site → Store site × Access
  unfolding token_allows
  require_account up needed token st =
      if not (token_allows token needed)
      then (st, forbidden)
      else caller (get_account site.sessions site.users site.max_token_age up token.id st)

  abbrev pub authorize_token : Bool → Scope → Store site × Option ApiToken → Store site × Access
  authorize_token up needed (st, none) = (st, unauthorized)
  authorize_token up needed (st, some token) = require_account up needed token st

  -- The extractor and the preamble of an endpoint; `up` for each of their statements.
  unfoldable pub authorize :
      Bool → Bool → ℕ → Scope → Option Text → Store site → Store site × Access
  unfolding extract_api_token_from_headers require_account
  authorize up up' now needed header st =
      authorize_token up' needed (extract_api_token_from_headers up now header st)

  module _ (from_signed : Text → Option (ℕ × Text)) where
    abbrev pub own_token : ℕ → Option (ℕ × Text) → Option Text
    own_token account_id none = none
    own_token account_id (some (id, session)) = if id == account_id then some session else none

    abbrev revoke : Request → Option Text → AppState site → AppState site × Status
    revoke req none st = (st, not_found)
    revoke req (some session) st = (
      audited site (codes "auth.session.invalidate") (
          on_store site
            (invalidate_session site.sessions site.users site.max_token_age (req.up 0) session) st),
      no_content,
    )

    unfoldable invalidate_own_session : Request → ℕ → Text → AppState site → AppState site × Status
    invalidate_own_session req account_id signed st =
        revoke req (own_token account_id (from_signed signed)) st

    abbrev pub is_row_of : Text → ℕ → Session → Bool
    is_row_of session account_id s = has_session_id session s && (s.account_id == account_id)

    abbrev pub describe : Text → ℕ → Text → Session → Session
    describe session account_id description s =
        if is_row_of session account_id s then record s { description = some description } else s

    abbrev pub rename : Request → ℕ → Text → Option Text → AppState site → AppState site × Status
    rename req account_id description none st = (st, not_found)
    rename req account_id description (some session) st =
        if not (req.up 0)
        then (st, server_error)
        else if not (any (is_row_of session account_id) st.store.rows)
        then (st, not_found)
        else (
          audited site (codes "auth.session.rename") (record st {
            store = record st.store {
              rows = map (describe session account_id description) st.store.rows;
            };
          }),
          no_content,
        )

    unfoldable pub rename_session :
        Request → ℕ → Text → Text → AppState site → AppState site × Status
    unfolding trim byte_len
    rename_session req account_id signed description st =
        let text = trim description in
        if is_empty text || ltb 100 (byte_len text)
        then (st, bad_request)
        else rename req account_id text (own_token account_id (from_signed signed)) st
