-- ===== src/Tests/Security.antt =====
-- Examples on changing a password and on setting up a second factor.
use klappstuhl_me.Prelude.{◌≡◌, refl, true, none, some, [], arith}
use klappstuhl_me.Text.{codes}
use klappstuhl_me.Account.{Account, has_totp}
use klappstuhl_me.Sessions.{session_row, account_row, is_session_valid}
use klappstuhl_me.Totp.{current_code, generate_recovery_codes}
use klappstuhl_me.Site.{AppState}
use klappstuhl_me.Sessions.Answers.{Matches, live_row}
use klappstuhl_me.Login.{logout}
use klappstuhl_me.Security.Requests.{Reaches-Matches, changes_password, logs_out, rests, steps}
use klappstuhl_me.Tests.Site.{
  toy_totp, toy_totp-Decodes, toy_totp-Opens, toy_totp-Tags, toy_site, dora, dora_login, dora_key,
  quiet, quiet-Coherent, request, secret, nonce, sealed_secret,
}
use klappstuhl_me.Security.{
  ChangePasswordForm, change_password, setup_shown, enabled, totp_setup, totp_enable, stored_secret,
}
use klappstuhl_me.Security.Logins.{change_password-revokes, change_password-spares}
use klappstuhl_me.Security.Factors.{totp_enable-totp_setup}

abbrev form : ChangePasswordForm
form = record {
  old_password = codes "password";
  new_password = codes "new password";
  confirm_password = codes "new password";
  session_description = none;
}

abbrev after : AppState toy_site
after = (change_password toy_site request [] 3 form quiet).0

change_password-revokes_example :
    (is_session_valid toy_site.sessions toy_site.users toy_site.max_token_age true 120
      (codes "d1")
      after.store).1
    ≡ none
unfolding change_password klappstuhl_me.Account.has_password
change_password-revokes_example =
    change_password-revokes toy_site request [] 3 form quiet after (codes "tok") (codes "d1")
      dora_login true 120 quiet-Coherent refl refl refl refl refl

change_password-spares_example : session_row (codes "d2") after.store.rows ≡ some dora_key
unfolding change_password klappstuhl_me.Account.has_password
change_password-spares_example =
    change_password-spares toy_site request [] 3 form quiet after (codes "tok") (codes "d2")
      dora_key refl refl refl refl

totp_enable-totp_setup_example :
    (mid : AppState toy_site) × (out : AppState toy_site) × (guarded : Account) × (totp_setup
        toy_site request dora secret
        (some nonce)
        []
        quiet
      ≡ (mid, setup_shown secret (generate_recovery_codes [])))
    × (totp_enable toy_site
          (record request { now = 130 })
          dora
          (current_code toy_totp secret 120)
          mid
        ≡ (out, enabled))
    × (account_row 3 out.store.accounts ≡ some guarded)
    × (has_totp guarded ≡ true)
    × (stored_secret toy_site (some guarded) ≡ some secret)
unfolding klappstuhl_me.Account.has_password klappstuhl_me.Totp.encrypt_secret
totp_enable-totp_setup_example =
    totp_enable-totp_setup toy_site request (record request { now = 130 }) dora dora secret nonce
      sealed_secret [] 120 quiet toy_totp-Decodes toy_totp-Opens toy_totp-Tags
      (record { passworded = refl; sized = refl; sealed = refl; up = refl }) refl refl refl
      (omega arith) (omega arith)

-- A change of the password and a logout.
Reaches-Matches_example :
    Matches toy_site.sessions toy_site.users toy_site.max_token_age
      (is_session_valid toy_site.sessions toy_site.users toy_site.max_token_age true 120
        (codes "d1")
        (logout toy_site request 3
          (codes "tok")
          (change_password toy_site request [] 3 form quiet).0).store).1
      (live_row toy_site.sessions toy_site.users toy_site.max_token_age 120
        (codes "d1")
        (logout toy_site request 3
          (codes "tok")
          (change_password toy_site request [] 3 form quiet).0).store.rows)
Reaches-Matches_example =
    Reaches-Matches toy_site 120 (codes "d1")
      (steps (changes_password request [] 3 form (codes "tok") refl)
        (steps (logs_out request 3 (codes "tok")) rests))
      quiet-Coherent
