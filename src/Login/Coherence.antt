-- ===== src/Login/Coherence.antt =====
-- Signing in and out keeps the caches in agreement with the tables.
use klappstuhl_me.Prelude.{
  ℕ, Bool, true, false, Option, none, some, Bool-cases, inl, inr, if◌then◌else◌, not, ltb,
}
use klappstuhl_me.Text.{Text, Bytes, trim}
use klappstuhl_me.Account.{Account, is_valid_username, has_totp}
use klappstuhl_me.Scope.{Session}
use klappstuhl_me.Totp.{verify}
use klappstuhl_me.Sessions.{is_login_of, invalidate_account_sessions}
use klappstuhl_me.Sessions.Coherence.{Coherent}
use klappstuhl_me.Sessions.Preservation.{invalidate_session-Coherent}
use klappstuhl_me.Sessions.Changes.{
  invalidate_account_cache-Coherent, save_session-Coherent, invalidate_where-Coherent,
}
use klappstuhl_me.Site.{
  Site, PendingTotp, Request, AppState, login_session, on_store, forget_account, saved,
  load_full_account,
}
use klappstuhl_me.Login.{
  Credentials, is_password_length, is_locked_out, issue, challenge, pending_of, admit, hash_of,
  account_named, authenticate, consume_recovery_code, accepts_code, finish, with_secret, secret_of,
  with_account, with_pending, login_totp_verify, logout, logout_all,
}

module _ (site : Site) where
  -- The caches of the state agree with its tables.
  abbrev pub CachesAgree : AppState site → Type 0
  CachesAgree st = Coherent site.sessions site.users site.max_token_age st.store

  -- Whatever a test says, if both states are in agreement.
  pub either_way :
      {A : Type 0} (b : Bool) (r s : AppState site × A)
      → CachesAgree r.0
      → CachesAgree s.0
      → CachesAgree (if b then r else s).0
  either_way true r s h k = h
  either_way false r s h k = k

  pub forget_account-CachesAgree :
      (id : ℕ) (st : AppState site) → CachesAgree st → CachesAgree (forget_account site id st)
  forget_account-CachesAgree id st c =
      invalidate_account_cache-Coherent site.sessions site.users site.max_token_age id st.store c

  pub saved-CachesAgree :
      (up : Bool) (s : Session) (st : AppState site)
      → CachesAgree st
      → CachesAgree (saved site up s st)
  saved-CachesAgree up s st c =
      save_session-Coherent site.sessions site.users site.max_token_age up s st.store c

  pub logins_revoked-CachesAgree :
      (up : Bool) (id : ℕ) (st : AppState site)
      → CachesAgree st
      → CachesAgree (
          on_store site
            (invalidate_account_sessions site.sessions site.users site.max_token_age up id)
            st)
  unfolding invalidate_account_sessions
  logins_revoked-CachesAgree up id st c =
      invalidate_where-Coherent site.sessions site.users site.max_token_age up (is_login_of id)
        st.store c

  issue-CachesAgree :
      (n : ℕ) (req : Request) (id : ℕ) (description : Option Text) (remember : Bool) (target : Text)
      (token : Option Text) (st : AppState site)
      → CachesAgree st
      → CachesAgree (issue site n req id description remember target token st).0
  issue-CachesAgree n req id description remember target none st c = c
  issue-CachesAgree n req id description remember target (some token) st c =
      saved-CachesAgree (req.up n) (login_session req.now token id description) st c

  challenge-CachesAgree :
      (signed : Option Text) (st : AppState site)
      → CachesAgree st
      → CachesAgree (challenge site signed st).0
  challenge-CachesAgree none st c = c
  challenge-CachesAgree (some signed) st c = c

  admit-CachesAgree :
      (req : Request) (k : Credentials) (account : Option Account) (st : AppState site)
      → CachesAgree st
      → CachesAgree (admit site req k account st).0
  admit-CachesAgree req k none st c = c
  admit-CachesAgree req k (some acc) st c =
      let forgotten = forget_account-CachesAgree acc.id st c in
      either_way (has_totp acc) _ _
        (challenge-CachesAgree (site.sign (pending_of site req k acc)) _ forgotten)
        (issue-CachesAgree 1 req acc.id k.session_description k.remember_me _ req.token _ forgotten)

  pub authenticate-CachesAgree :
      (req : Request) (k : Credentials) (st : AppState site)
      → CachesAgree st
      → CachesAgree (authenticate site req k st).0
  unfolding authenticate
  authenticate-CachesAgree req k st c = either_way (not (is_valid_username k.username)) _ _ c (
      either_way (not (is_password_length k.password)) _ _ c (
        either_way (is_locked_out site req.now req.ip st) _ _ c (
          either_way (not (req.up 0)) _ _ c (
            either_way
              (site.validate_password k.password (hash_of site (account_named site k.username st)))
              _ _ (admit-CachesAgree req k (account_named site k.username st) st c) c))))

  finish-CachesAgree :
      (req : Request) (pending : PendingTotp) (acc : Account) (r : AppState site × Bool)
      → CachesAgree r.0
      → CachesAgree (finish site req pending acc r).0
  finish-CachesAgree req pending acc (st, false) c = c
  finish-CachesAgree req pending acc (st, true) c =
      issue-CachesAgree 2 req acc.id pending.description pending.remember _ req.token st c

  accepts_code-CachesAgree :
      (req : Request) (acc : Account) (secret : Bytes) (code : Text) (st : AppState site)
      → CachesAgree st
      → CachesAgree (accepts_code site req acc secret code st).0
  unfolding consume_recovery_code
  accepts_code-CachesAgree req acc secret code st c =
      elim (Bool-cases (verify site.totp secret req.now code)) [
        | inl right ↦ rw right c
        | inr wrong ↦ elim (Bool-cases (req.up 1)) [
          | inl up ↦ rw (wrong, up) c
          | inr down ↦ rw (wrong, down) c
        ]
      ]

  with_secret-CachesAgree :
      (req : Request) (pending : PendingTotp) (code : Text) (acc : Account) (o : Option Bytes)
      (st : AppState site)
      → CachesAgree st
      → CachesAgree (with_secret site req pending code acc o st).0
  with_secret-CachesAgree req pending code acc none st c = c
  with_secret-CachesAgree req pending code acc (some secret) st c =
      finish-CachesAgree req pending acc _
        (accepts_code-CachesAgree req acc secret (trim code) st c)

  with_pending-CachesAgree :
      (req : Request) (code : Text) (o : Option PendingTotp) (st : AppState site)
      → CachesAgree st
      → CachesAgree (with_pending site req code o st).0
  with_pending-CachesAgree req code none st c = c
  with_pending-CachesAgree req code (some pending) st c =
      either_way (ltb pending.exp req.now) _ _ c
        (found (load_full_account site (req.up 0) pending.account_id st))
    where
      found : (o : Option Account) → CachesAgree (with_account site req pending code o st).0
      found none = c
      found (some acc) = with_secret-CachesAgree req pending code acc (secret_of site acc) st c

  pub login_totp_verify-CachesAgree :
      (req : Request) (cookie : Option Text) (code : Text) (st : AppState site)
      → CachesAgree st
      → CachesAgree (login_totp_verify site req cookie code st).0
  unfolding login_totp_verify
  login_totp_verify-CachesAgree req none code st c = c
  login_totp_verify-CachesAgree req (some signed) code st c =
      with_pending-CachesAgree req code (site.verify_pending signed) st c

  pub logout-CachesAgree :
      (req : Request) (id : ℕ) (session : Text) (st : AppState site)
      → CachesAgree st
      → CachesAgree (logout site req id session st)
  unfolding logout
  logout-CachesAgree req id session st c =
      invalidate_session-Coherent site.sessions site.users site.max_token_age (req.up 0) session _
        (forget_account-CachesAgree id st c)

  pub logout_all-CachesAgree :
      (req : Request) (id : ℕ) (st : AppState site)
      → CachesAgree st
      → CachesAgree (logout_all site req id st)
  unfolding logout_all
  logout_all-CachesAgree req id st c =
      logins_revoked-CachesAgree (req.up 0) id (forget_account site id st)
        (forget_account-CachesAgree id st c)
