-- ===== src/Login/Liveness.antt =====
-- A user who has the password and the authenticator gets in.
use klappstuhl_me.Prelude.{
  not_later, ℕ, ◌+◌, ◌≤◌, ◌≡◌, refl, Bool, true, false, Option, none, some, ltb,
}
use klappstuhl_me.Text.{Text, Bytes, codes}
use klappstuhl_me.Text.Equality.{text_eq_refl}
use klappstuhl_me.Account.{Account, is_valid_username, has_totp}
use klappstuhl_me.Sessions.{session_row, account_row, save_session, invalidate_account_cache}
use klappstuhl_me.Totp.{current_code, time_step}
use klappstuhl_me.Totp.Codes.{verify-trim-current_code}
use klappstuhl_me.Site.{
  Site, PendingTotp, Request, AppState, login_session, forget_account, saved, load_full_account,
  audited,
}
use klappstuhl_me.Login.{
  Credentials, challenged, signed_in, is_password_length, is_locked_out, pending_of, account_named,
  authenticate, secret_of, login_totp_verify, safe_target, target_or_root, challenge_secs,
}

module _ (site : Site) where
  -- What is signed verifies.
  abbrev pub Signs : Type 0
  Signs =
      (p : PendingTotp) (signed : Text)
      → site.sign p ≡ some signed
      → site.verify_pending signed ≡ some p

  -- The credentials are those of the account, with its authenticator, and nothing refuses them.
  pub record Entitled (req : Request) (k : Credentials) (acc : Account) (secret : Bytes)
      (st : AppState site) : Type 0 where
    pub well_formed : is_valid_username k.username ≡ true
    pub fits : is_password_length k.password ≡ true
    pub unlocked : is_locked_out site req.now req.ip st ≡ false
    pub up : req.up 0 ≡ true
    pub named : account_named site k.username st ≡ some acc
    pub listed : account_row acc.id st.store.accounts ≡ some acc
    pub proved : site.validate_password k.password acc.password ≡ true
    pub guarded : has_totp acc ≡ true
    pub opens : secret_of site acc ≡ some secret

  -- The second request comes in time, with a code that was shown at most 30 seconds before, and
  -- draws a token that no session has; the database answers it.
  pub record Follows (req req' : Request) (shown : ℕ) (id : Text) (st : AppState site)
      : Type 0 where
    pub in_time : req'.now ≤ req.now + challenge_secs
    pub seen : shown ≤ req'.now
    pub recent : req'.now ≤ shown + time_step
    pub drawn : req'.token ≡ some id
    pub unused : session_row id st.store.rows ≡ none
    pub reads : req'.up 0 ≡ true
    pub writes : req'.up 2 ≡ true

  abbrev middle : Account → AppState site → AppState site
  middle acc st = audited site (codes "auth.login.2fa_challenge") (forget_account site acc.id st)

  abbrev final : Request → Credentials → Account → Text → AppState site → AppState site
  final req' k acc id st = audited site (codes "auth.login.success") (
      saved site (req'.up 2) (login_session req'.now id acc.id k.session_description)
        (middle acc st))

  first_step :
      (req : Request) (k : Credentials) (acc : Account) (secret : Bytes) (signed : Text)
      (st : AppState site)
      → site.sign (pending_of site req k acc) ≡ some signed
      → Entitled req k acc secret st
      → authenticate site req k st ≡ (middle acc st, challenged signed)
  unfolding authenticate
  first_step req k acc secret signed st sign e =
      rw (e.well_formed, e.fits, e.unlocked, e.up, e.named, e.proved, e.guarded, sign) refl

  loaded :
      (req' : Request) (acc : Account) (st : AppState site)
      → req'.up 0 ≡ true
      → account_row acc.id st.store.accounts ≡ some acc
      → load_full_account site (req'.up 0) acc.id (middle acc st) ≡ some acc
  unfolding invalidate_account_cache
  loaded req' acc st up listed = rw (up, listed) refl

  second_step :
      (req req' : Request) (k : Credentials) (acc : Account) (secret : Bytes) (signed : Text)
      (shown : ℕ) (id : Text) (st : AppState site)
      → Signs
      → site.sign (pending_of site req k acc) ≡ some signed
      → Entitled req k acc secret st
      → Follows req req' shown id st
      → login_totp_verify site req'
          (some signed)
          (current_code site.totp secret shown)
          (middle acc st)
        ≡ (
          final req' k acc id st,
          signed_in id k.remember_me (target_or_root site (safe_target site k.next)),
        )
  unfolding login_totp_verify
  second_step req req' k acc secret signed shown id st law sign e f =
      let in_time : ltb (req.now + challenge_secs) req'.now ≡ false = not_later _ _ f.in_time in
      rw
        (
          law (pending_of site req k acc) signed sign,
          in_time,
          loaded req' acc st f.reads e.listed,
          e.opens,
          verify-trim-current_code site.totp secret req'.now shown f.seen f.recent,
          f.drawn,
        )
        refl

  saved_row :
      (up : Bool) (now : ℕ) (id : Text) (description : Option Text) (acc : Account)
      (st : AppState site)
      → up ≡ true
      → session_row id st.store.rows ≡ none
      → account_row acc.id st.store.accounts ≡ some acc
      → session_row id
          (saved site up (login_session now id acc.id description) (middle acc st)).store.rows
        ≡ some (login_session now id acc.id description)
  unfolding save_session invalidate_account_cache
  saved_row up now id description acc st answered unused listed =
      rw (answered, unused, listed, text_eq_refl id) refl

  -- With a signature that verifies, a user with the right password and the code of the authenticator
  -- is challenged and then signed in, and the session is a row of the account.
  pub two_step_login :
      (req req' : Request) (k : Credentials) (acc : Account) (secret : Bytes) (signed : Text)
      (shown : ℕ) (id : Text) (st : AppState site)
      → Signs
      → site.sign (pending_of site req k acc) ≡ some signed
      → Entitled req k acc secret st
      → Follows req req' shown id st
      → (mid : AppState site) × (out : AppState site) × (authenticate site req k st
          ≡ (mid, challenged signed))
        × (login_totp_verify site req' (some signed) (current_code site.totp secret shown) mid
            ≡ (out, signed_in id k.remember_me (target_or_root site (safe_target site k.next))))
        × (session_row id out.store.rows
            ≡ some (login_session req'.now id acc.id k.session_description))
  two_step_login req req' k acc secret signed shown id st law sign e f = (
    middle acc st,
    final req' k acc id st,
    first_step req k acc secret signed st sign e,
    second_step req req' k acc secret signed shown id st law sign e f,
    saved_row (req'.up 2) req'.now id k.session_description acc st f.writes f.unused e.listed,
  )
