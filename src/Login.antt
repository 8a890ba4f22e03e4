-- ===== src/Login.antt =====
-- Signing in and out: src/site/account/auth.rs on the sessions of src/core/state.rs, the lockout and
-- the recovery codes. An
-- answer to the browser is what it is told; the pages and cookies around it are not modelled.
pub mod Coherence
pub mod Guards
pub mod Challenge
pub mod Liveness
use klappstuhl_me.Prelude.{
  ℕ, ◌+◌, ◌*◌, Bool, true, false, not, ◌&&◌, ◌||◌, Option, none, some, List, [], ◌∷◌, map,
  if◌then◌else◌, ltb, leb, ◌==◌, any, find, or_else, ◌>>=◌,
}
use klappstuhl_me.Text.{Text, Bytes, codes, text_eq, trim, byte_len}
use klappstuhl_me.Account.{Account, is_valid_username, has_totp}
use klappstuhl_me.Cache.{Cache}
use klappstuhl_me.Lockout.{AttemptWindow, is_locked, register_failure}
use klappstuhl_me.Redirect.{safe_next_for_domain}
use klappstuhl_me.Scope.{Session}
use klappstuhl_me.Sessions.{
  SessionInfo, State, account_row, invalidate_session, invalidate_account_cache, save_session,
  invalidate_account_sessions,
}
use klappstuhl_me.Totp.{TotpLib, verify, decrypt_secret, hash_recovery_code}
use klappstuhl_me.Site.{
  PendingTotp, Site, RecoveryCode, Request, login_session, Store, AppState, audited, on_store,
  forget_account, saved, count_failure, failed, load_full_account,
}

pub record Credentials : Type 0 where
  pub username : Text
  pub password : Text
  pub session_description : Option Text
  pub remember_me : Bool
  pub next : Option Text

pub data Refusal : Type 0 where
  invalid_username : Refusal
  password_length : Refusal
  too_many_failures : Refusal
  database_error : Refusal
  incorrect_login : Refusal
  challenge_unsigned : Refusal
  token_unavailable : Refusal
  challenge_missing : Refusal
  challenge_invalid : Refusal
  challenge_expired : Refusal
  account_missing : Refusal
  totp_unconfigured : Refusal
  invalid_code : Refusal

-- A session that is saved, whether its cookie stays, and where the browser goes.
pub data Answer : Type 0 where
  refused : Refusal → Answer
  challenged : Text → Answer
  signed_in : Text → Bool → Text → Answer

abbrev pub is_password_length : Text → Bool
is_password_length password = leb 8 (byte_len password) && leb (byte_len password) 128

-- Five minutes.
abbrev pub challenge_secs : ℕ
challenge_secs = 5 * 60

abbrev pub is_unused : ℕ → Text → RecoveryCode → Bool
is_unused account_id hash c =
    (c.account_id == account_id) && (text_eq c.code_hash hash && unset c.used_at)
  where
    unset : Option ℕ → Bool
    unset none = true
    unset (some t) = false

abbrev pub spend : ℕ → ℕ → Text → RecoveryCode → RecoveryCode
spend now account_id hash c =
    if is_unused account_id hash c then record c { used_at = some now } else c

module _ (site : Site) where
  abbrev pub is_locked_out : ℕ → Option ℕ → AppState site → Bool
  is_locked_out now none st = false
  is_locked_out now (some ip) st = is_locked site.lockout now ip st.failures

  abbrev pub safe_target : Option Text → Option Text
  safe_target next = safe_next_for_domain next (some site.trusted_domain)

  abbrev pub target_or_root : Option Text → Text
  target_or_root next = or_else (safe_target next) (codes "/")

  -- The last step of a login: a token is drawn, and its session saved by statement `n`.
  abbrev pub issue :
      ℕ
      → Request
      → ℕ
      → Option Text
      → Bool
      → Text
      → Option Text
      → AppState site
      → AppState site × Answer
  issue n req id description remember target none st = (st, refused token_unavailable)
  issue n req id description remember target (some token) st = (
    audited site (codes "auth.login.success")
        (saved site (req.up n) (login_session req.now token id description) st),
    signed_in token remember target,
  )

  abbrev pub challenge : Option Text → AppState site → AppState site × Answer
  challenge none st = (st, refused challenge_unsigned)
  challenge (some signed) st =
      (audited site (codes "auth.login.2fa_challenge") st, challenged signed)

  abbrev pub pending_of : Request → Credentials → Account → PendingTotp
  pending_of req c acc = record {
    account_id = acc.id;
    remember = c.remember_me;
    description = c.session_description;
    next = safe_target c.next;
    exp = req.now + challenge_secs;
  }

  abbrev pub admit : Request → Credentials → Option Account → AppState site → AppState site × Answer
  admit req c none st = (failed site (codes "auth.login.fail") req st, refused incorrect_login)
  admit req c (some acc) st =
      if has_totp acc
      then challenge (site.sign (pending_of req c acc)) (forget_account site acc.id st)
      else issue 1 req acc.id c.session_description c.remember_me (target_or_root c.next) req.token
          (forget_account site acc.id st)

  abbrev pub hash_of : Option Account → Text
  hash_of none = site.incorrect_default_password_hash
  hash_of (some acc) = acc.password

  -- A hash is always compared, also where there is no account.
  abbrev pub compare_hash :
      Request → Credentials → Option Account → AppState site → AppState site × Answer
  compare_hash req c account st =
      if site.validate_password c.password (hash_of account)
      then admit req c account st
      else (failed site (codes "auth.login.fail") req st, refused incorrect_login)

  abbrev pub account_named : Text → AppState site → Option Account
  account_named name st = find (λ (a : Account). text_eq a.name name) st.store.accounts

  unfoldable pub authenticate : Request → Credentials → AppState site → AppState site × Answer
  unfolding text_eq byte_len
  authenticate req c st =
      if not (is_valid_username c.username)
      then (st, refused invalid_username)
      else if not (is_password_length c.password)
      then (st, refused password_length)
      else if is_locked_out req.now req.ip st
      then (audited site (codes "auth.login.throttled") st, refused too_many_failures)
      else if not (req.up 0)
      then (st, refused database_error)
      else compare_hash req c (account_named c.username st) st

  -- `UPDATE … WHERE used_at IS NULL`, and whether it changed a row.
  unfoldable pub consume_recovery_code : Bool → ℕ → ℕ → Text → AppState site → AppState site × Bool
  unfolding hash_recovery_code
  consume_recovery_code up now id code st =
      if up
      then (
        record st { recovery = map (spend now id (hash_recovery_code site.totp code)) st.recovery },
        any (is_unused id (hash_recovery_code site.totp code)) st.recovery,
      )
      else (st, false)

  -- The recovery codes are asked only where the one-time code is wrong.
  abbrev pub accepts_code : Request → Account → Bytes → Text → AppState site → AppState site × Bool
  accepts_code req acc secret code st =
      if verify site.totp secret req.now code
      then (st, true)
      else consume_recovery_code (req.up 1) req.now acc.id code st

  abbrev pub finish :
      Request → PendingTotp → Account → AppState site × Bool → AppState site × Answer
  finish req pending acc (st, false) =
      (failed site (codes "auth.login.2fa_fail") req st, refused invalid_code)
  finish req pending acc (st, true) =
      issue 2 req acc.id pending.description pending.remember (target_or_root pending.next)
        req.token st

  abbrev pub with_secret :
      Request → PendingTotp → Text → Account → Option Bytes → AppState site → AppState site × Answer
  with_secret req pending code acc none st = (st, refused totp_unconfigured)
  with_secret req pending code acc (some secret) st =
      finish req pending acc (accepts_code req acc secret (trim code) st)

  abbrev pub secret_of : Account → Option Bytes
  secret_of acc = do enc ← acc.totp_secret; decrypt_secret site.totp enc

  abbrev pub with_account :
      Request → PendingTotp → Text → Option Account → AppState site → AppState site × Answer
  with_account req pending code none st = (st, refused account_missing)
  with_account req pending code (some acc) st = with_secret req pending code acc (secret_of acc) st

  abbrev pub with_pending :
      Request → Text → Option PendingTotp → AppState site → AppState site × Answer
  with_pending req code none st = (st, refused challenge_invalid)
  with_pending req code (some pending) st =
      if ltb pending.exp req.now
      then (st, refused challenge_expired)
      else with_account req pending code (load_full_account site (req.up 0) pending.account_id st)
          st

  abbrev with_cookie : Request → Text → Option Text → AppState site → AppState site × Answer
  with_cookie req code none st = (st, refused challenge_missing)
  with_cookie req code (some signed) st = with_pending req code (site.verify_pending signed) st

  unfoldable pub login_totp_verify :
      Request → Option Text → Text → AppState site → AppState site × Answer
  unfolding consume_recovery_code
  login_totp_verify req cookie code st = with_cookie req code cookie st

  -- The account and the session of the cookie.
  unfoldable pub logout : Request → ℕ → Text → AppState site → AppState site
  logout req id session st = audited site (codes "auth.logout") (
      on_store site
        (invalidate_session site.sessions site.users site.max_token_age (req.up 0) session)
        (forget_account site id st))

  unfoldable pub logout_all : Request → ℕ → AppState site → AppState site
  logout_all req id st = audited site (codes "auth.logout_all") (
      on_store site
        (invalidate_account_sessions site.sessions site.users site.max_token_age (req.up 0) id)
        (forget_account site id st))
