-- ===== src/Security/Requests.antt =====
-- Sequences of requests that sign in, sign out and change the security of an account.
use klappstuhl_me.Prelude.{ℕ, ◌≡◌, Option, some, List, true}
use klappstuhl_me.Text.{Text, Bytes}
use klappstuhl_me.Account.{Account}
use klappstuhl_me.Sessions.{is_session_valid}
use klappstuhl_me.Sessions.Answers.{Matches, live_row, is_session_valid-Matches}
use klappstuhl_me.Site.{Site, Request, AppState}
use klappstuhl_me.Login.{Credentials, authenticate, login_totp_verify, logout, logout_all}
use klappstuhl_me.Login.Coherence.{
  CachesAgree, authenticate-CachesAgree, login_totp_verify-CachesAgree, logout-CachesAgree,
  logout_all-CachesAgree,
}
use klappstuhl_me.Security.{
  ChangePasswordForm, change_password, totp_setup, totp_enable, totp_disable, totp_recovery_codes,
}
use klappstuhl_me.Security.Coherence.{
  change_password-CachesAgree, totp_setup-CachesAgree, totp_enable-CachesAgree,
  totp_disable-CachesAgree, totp_recovery_codes-CachesAgree,
}

module _ (site : Site) where
  -- One request. A change of the password draws a token: without one the caches are left behind.
  pub data Handles : AppState site → AppState site → Type 0 where
    logs_in :
        {st : AppState site} (req : Request) (k : Credentials)
        → Handles st (authenticate site req k st).0
    proves :
        {st : AppState site} (req : Request) (cookie : Option Text) (code : Text)
        → Handles st (login_totp_verify site req cookie code st).0
    logs_out :
        {st : AppState site} (req : Request) (id : ℕ) (session : Text)
        → Handles st (logout site req id session st)
    logs_out_all :
        {st : AppState site} (req : Request) (id : ℕ) → Handles st (logout_all site req id st)
    changes_password :
        {st : AppState site} (req : Request) (salt : Bytes) (id : ℕ) (form : ChangePasswordForm)
        (token : Text)
        → req.token ≡ some token
        → Handles st (change_password site req salt id form st).0
    sets_up :
        {st : AppState site} (req : Request) (account : Account) (secret : Bytes)
        (nonce : Option Bytes) (draws : List Text)
        → Handles st (totp_setup site req account secret nonce draws st).0
    enables :
        {st : AppState site} (req : Request) (account : Account) (code : Text)
        → Handles st (totp_enable site req account code st).0
    disables :
        {st : AppState site} (req : Request) (account : Account) (password : Text)
        → Handles st (totp_disable site req account password st).0
    renews :
        {st : AppState site} (req : Request) (account : Account) (password : Text)
        (draws : List Text)
        → Handles st (totp_recovery_codes site req account password draws st).0

  pub data Reaches : AppState site → AppState site → Type 0 where
    rests : {st : AppState site} → Reaches st st
    steps : {st mid out : AppState site} → Handles st mid → Reaches mid out → Reaches st out

  Handles-CachesAgree :
      {st out : AppState site} → Handles st out → CachesAgree site st → CachesAgree site out
  Handles-CachesAgree {st = st} (logs_in req k) c = authenticate-CachesAgree site req k st c
  Handles-CachesAgree {st = st} (proves req cookie code) c =
      login_totp_verify-CachesAgree site req cookie code st c
  Handles-CachesAgree {st = st} (logs_out req id session) c =
      logout-CachesAgree site req id session st c
  Handles-CachesAgree {st = st} (logs_out_all req id) c = logout_all-CachesAgree site req id st c
  Handles-CachesAgree {st = st} (changes_password req salt id form token drawn) c =
      change_password-CachesAgree site req salt id form token st drawn c
  Handles-CachesAgree {st = st} (sets_up req account secret nonce draws) c =
      totp_setup-CachesAgree site req account secret nonce draws st c
  Handles-CachesAgree {st = st} (enables req account code) c =
      totp_enable-CachesAgree site req account code st c
  Handles-CachesAgree {st = st} (disables req account password) c =
      totp_disable-CachesAgree site req account password st c
  Handles-CachesAgree {st = st} (renews req account password draws) c =
      totp_recovery_codes-CachesAgree site req account password draws st c

  Reaches-CachesAgree :
      {st out : AppState site} → Reaches st out → CachesAgree site st → CachesAgree site out
  Reaches-CachesAgree rests c = c
  Reaches-CachesAgree (steps h r) c = Reaches-CachesAgree r (Handles-CachesAgree h c)

  -- However logins, second steps, logouts, changes of the password that draw a token, and changes of
  -- the second factor follow each other, from caches that agree with the tables, and whatever of their
  -- statements the database answers: a session is then valid, where the database answers, exactly if
  -- its row is there and has not expired, and what is answered is what the row says.
  pub Reaches-Matches :
      {st out : AppState site} (now : ℕ) (id : Text)
      → Reaches st out
      → CachesAgree site st
      → Matches site.sessions site.users site.max_token_age
          (is_session_valid site.sessions site.users site.max_token_age true now id out.store).1
          (live_row site.sessions site.users site.max_token_age now id out.store.rows)
  Reaches-Matches {out = out} now id r c =
      is_session_valid-Matches site.sessions site.users site.max_token_age now id out.store
        (Reaches-CachesAgree r c)
