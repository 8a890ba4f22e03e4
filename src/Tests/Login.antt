-- ===== src/Tests/Login.antt =====
-- Examples on signing in.
use klappstuhl_me.Prelude.{
  ◌≡◌, ◌↔◌, ◌⊎◌, ◌+◌, ◌-◌, ◌/◌, refl, true, false, none, some, [], ◌∷◌, arith,
}
use klappstuhl_me.Text.{Text, Bytes, codes, text_eq}
use klappstuhl_me.Account.{Account, has_totp}
use klappstuhl_me.Sessions.{session_row}
use klappstuhl_me.Totp.{
  verify, step_code, typed, time_step, current_code, generate_recovery_codes, decrypt_secret,
}
use klappstuhl_me.Totp.Codes.{verify_iff}
use klappstuhl_me.Totp.Secrets.{decrypt_secret-encrypt_secret}
use klappstuhl_me.Site.{AppState, login_session}
use klappstuhl_me.Lockout.{AttemptWindow}
use klappstuhl_me.Login.{
  Credentials, challenged, signed_in, authenticate, login_totp_verify, consume_recovery_code,
  target_or_root, safe_target,
}
use klappstuhl_me.Login.Guards.{PasswordLogin, authenticate-PasswordLogin}
use klappstuhl_me.Login.Challenge.{
  TotpLogin, login_totp_verify-TotpLogin, consume_recovery_code_once,
}
use klappstuhl_me.Login.Liveness.{two_step_login}
use klappstuhl_me.Tests.Site.{
  toy_totp, toy_totp-Decodes, toy_totp-Opens, toy_totp-Tags, toy_site, toy_site-Signs, state_of,
  quiet, request, secret, nonce, sealed_secret, guarded_dora,
}

verify_iff_example : (verify toy_totp secret 100 (codes " 000 000") ≡ true) ↔ (
    (step_code toy_totp secret (100 / time_step - 1) ≡ typed (codes " 000 000"))
    ⊎ ((step_code toy_totp secret (100 / time_step) ≡ typed (codes " 000 000"))
        ⊎ (step_code toy_totp secret (100 / time_step + 1) ≡ typed (codes " 000 000"))))
verify_iff_example = verify_iff toy_totp secret 100 (codes " 000 000")

decrypt_secret-encrypt_secret_example : decrypt_secret toy_totp sealed_secret ≡ some secret
unfolding klappstuhl_me.Totp.encrypt_secret
decrypt_secret-encrypt_secret_example =
    decrypt_secret-encrypt_secret toy_totp nonce secret sealed_secret toy_totp-Decodes
      toy_totp-Opens toy_totp-Tags refl refl

abbrev credentials : Credentials
credentials = record {
  username = codes "dora";
  password = codes "password";
  session_description = none;
  remember_me = true;
  next = none;
}

authenticate-PasswordLogin_example :
    PasswordLogin toy_site request credentials quiet
      (authenticate toy_site request credentials quiet).0
      (codes "tok")
      true
      (codes "/")
unfolding authenticate klappstuhl_me.Account.is_valid_username has_totp
    klappstuhl_me.Lockout.is_locked klappstuhl_me.Redirect.safe_next_for_domain
authenticate-PasswordLogin_example =
    authenticate-PasswordLogin toy_site request credentials quiet
      (authenticate toy_site request credentials quiet).0 (codes "tok") true (codes "/") refl

abbrev locked : AppState toy_site
locked = record quiet { failures = λ k. some (record { count = 8; started = 90 }) }

consume_recovery_code_once_example :
    consume_recovery_code toy_site true 120 3
      (codes "abc")
      (consume_recovery_code toy_site true 110 3 (codes "abc") quiet).0
    ≡ ((consume_recovery_code toy_site true 110 3 (codes "abc") quiet).0, false)
consume_recovery_code_once_example =
    consume_recovery_code_once toy_site true 110 120 3 (codes "abc") quiet

abbrev guarded : AppState toy_site
guarded = state_of guarded_dora

login_totp_verify-TotpLogin_example :
    TotpLogin toy_site request (codes "000000") (3 ∷ 400 ∷ []) guarded (codes "tok")
unfolding login_totp_verify decrypt_secret verify klappstuhl_me.Text.remove_char
    klappstuhl_me.Text.trim klappstuhl_me.Redirect.safe_next_for_domain
login_totp_verify-TotpLogin_example =
    login_totp_verify-TotpLogin toy_site request (3 ∷ 400 ∷ []) (codes "000000") guarded
      (login_totp_verify toy_site request (some (3 ∷ 400 ∷ [])) (codes "000000") guarded).0
      (codes "tok") true (codes "/") refl

two_step_login_example :
    (mid : AppState toy_site) × (out : AppState toy_site) × (authenticate toy_site request
        credentials guarded
      ≡ (mid, challenged (3 ∷ 400 ∷ [])))
    × (login_totp_verify toy_site
          (record request { now = 130 })
          (some (3 ∷ 400 ∷ []))
          (current_code toy_totp secret 120)
          mid
        ≡ (out, signed_in (codes "tok") true (target_or_root toy_site (safe_target toy_site none))))
    × (session_row (codes "tok") out.store.rows ≡ some (login_session 130 (codes "tok") 3 none))
unfolding klappstuhl_me.Account.is_valid_username has_totp klappstuhl_me.Lockout.is_locked
    decrypt_secret klappstuhl_me.Redirect.safe_next_for_domain text_eq
two_step_login_example =
    two_step_login toy_site request (record request { now = 130 }) credentials guarded_dora secret
      (3 ∷ 400 ∷ []) 120 (codes "tok") guarded toy_site-Signs refl
      (record {
        well_formed = refl;
        fits = refl;
        unlocked = refl;
        up = refl;
        named = refl;
        listed = refl;
        proved = refl;
        guarded = refl;
        opens = refl;
      })
      (record {
        in_time = omega arith;
        seen = omega arith;
        recent = omega arith;
        drawn = refl;
        unused = refl;
        reads = refl;
        writes = refl;
      })
