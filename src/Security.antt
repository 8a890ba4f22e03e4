-- ===== src/Security.antt =====
-- src/site/account/security.rs: changing the password, and setting up, enabling and disabling the
-- second factor. The secret, the nonce, the salt and the recovery codes that are drawn are arguments.
pub mod Coherence
pub mod Passwords
pub mod Logins
pub mod Factors
pub mod Requests
use klappstuhl_me.Prelude.{
  ℕ, ◌+◌, Bool, true, false, not, ◌&&◌, Option, none, some, List, [], ◌∷◌, ◌++◌, map, if◌then◌else◌,
  leb, ◌==◌, keep_if, ◌>>=◌,
}
use klappstuhl_me.Text.{Text, Bytes, codes, text_eq, trim, byte_len}
use klappstuhl_me.Account.{Account, has_password, has_totp}
use klappstuhl_me.Sessions.{account_row, invalidate_account_sessions}
use klappstuhl_me.Totp.{
  verify, encrypt_secret, decrypt_secret, hash_recovery_code, generate_recovery_codes,
}
use klappstuhl_me.Site.{
  Site, Request, RecoveryCode, Store, AppState, audited, on_store, forget_account, saved,
  login_session, load_full_account,
}

pub data Refusal : Type 0 where
  password_length : Refusal
  passwords_differ : Refusal
  account_missing : Refusal
  database_error : Refusal
  invalid_password : Refusal
  hash_failed : Refusal
  token_unavailable : Refusal
  no_password : Refusal
  secret_failed : Refusal
  setup_missing : Refusal
  code_mismatch : Refusal
  totp_disabled : Refusal

pub data Answer : Type 0 where
  refused : Refusal → Answer
  password_changed : Text → Answer
  setup_shown : Bytes → List Text → Answer
  enabled : Answer
  disabled : Answer
  codes_shown : List Text → Answer

pub record ChangePasswordForm : Type 0 where
  pub old_password : Text
  pub new_password : Text
  pub confirm_password : Text
  pub session_description : Option Text

-- `UPDATE account SET … WHERE id = ?`.
abbrev pub with_row : ℕ → (Account → Account) → List Account → List Account
with_row id f accounts = map (λ (a : Account). if a.id == id then f a else a) accounts

module _ (site : Site) where
  abbrev pub update_account : ℕ → (Account → Account) → AppState site → AppState site
  update_account id f st = record st {
    store = record st.store { accounts = with_row id f st.store.accounts };
  }

  -- The token is drawn after the row is written.
  abbrev pub replace_logins :
      Request → Account → Option Text → Option Text → AppState site → AppState site × Answer
  replace_logins req acc description none st = (st, refused token_unavailable)
  replace_logins req acc description (some token) st = (
    audited site (codes "auth.password.change") (
        saved site (req.up 3) (login_session req.now token acc.id description) (
          on_store site
            (invalidate_account_sessions site.sessions site.users site.max_token_age (req.up 2)
              acc.id)
            (forget_account site acc.id st))),
    password_changed token,
  )

  abbrev pub write_password :
      Request → ChangePasswordForm → Account → Option Text → AppState site → AppState site × Answer
  write_password req form acc none st = (st, refused hash_failed)
  write_password req form acc (some changed_hash) st =
      if not (req.up 1)
      then (st, refused database_error)
      else replace_logins req acc form.session_description req.token
          (update_account acc.id (λ a. record a { password = changed_hash }) st)

  abbrev pub with_owner :
      Request → Bytes → ChangePasswordForm → Option Account → AppState site → AppState site × Answer
  with_owner req salt form none st = (st, refused account_missing)
  with_owner req salt form (some acc) st =
      if has_password acc && not (site.validate_password form.old_password acc.password)
      then (st, refused invalid_password)
      else write_password req form acc (site.hash_password salt form.new_password) st

  -- `id` is the token's account.
  unfoldable pub change_password :
      Request → Bytes → ℕ → ChangePasswordForm → AppState site → AppState site × Answer
  unfolding byte_len text_eq
  change_password req salt id form st =
      if not (leb 8 (byte_len form.new_password) && leb (byte_len form.new_password) 128)
      then (st, refused password_length)
      else if not (text_eq form.new_password form.confirm_password)
      then (st, refused passwords_differ)
      else if not (req.up 0)
      then (st, refused database_error)
      else with_owner req salt form (account_row id st.store.accounts) st

  abbrev clear_codes : Bool → ℕ → List RecoveryCode → List RecoveryCode
  clear_codes up id recovery =
      if up then keep_if (λ (c : RecoveryCode). not (c.account_id == id)) recovery else recovery

  abbrev new_code : ℕ → Text → RecoveryCode
  new_code id code = record {
    account_id = id;
    code_hash = hash_recovery_code site.totp code;
    used_at = none;
  }

  -- One statement for each code, from statement `n` on; a failure of one is passed over.
  unfoldable insert_codes : (ℕ → Bool) → ℕ → ℕ → List Text → List RecoveryCode → List RecoveryCode
  unfolding hash_recovery_code
  insert_codes up n id [] recovery = recovery
  insert_codes up n id (c ∷ cs) recovery =
      insert_codes up (n + 1) id cs (if up n then new_code id c ∷ recovery else recovery)

  -- The statements are `n` and those after it.
  unfoldable pub reset_recovery_codes :
      Request → ℕ → ℕ → List Text → AppState site → AppState site × List Text
  unfolding insert_codes generate_recovery_codes
  reset_recovery_codes req n id draws st =
      let fresh = generate_recovery_codes draws in
      (
        record st {
          recovery = insert_codes req.up (n + 1) id fresh (clear_codes (req.up n) id st.recovery);
        },
        fresh,
      )

  abbrev show_setup : Account → Bytes → AppState site × List Text → AppState site × Answer
  show_setup account secret (st, fresh) = (
    audited site (codes "auth.2fa.setup") (forget_account site account.id st),
    setup_shown secret fresh,
  )

  abbrev pub store_secret :
      Request → Account → Bytes → List Text → Option Text → AppState site → AppState site × Answer
  store_secret req account secret draws none st = (st, refused secret_failed)
  store_secret req account secret draws (some encrypted) st =
      if not (req.up 0)
      then (st, refused database_error)
      else show_setup account secret (
          reset_recovery_codes req 1 account.id draws (
            update_account account.id
              (λ a. record a { totp_secret = some encrypted; totp_enabled = false }) st))

  unfoldable pub totp_setup :
      Request → Account → Bytes → Option Bytes → List Text → AppState site → AppState site × Answer
  unfolding reset_recovery_codes encrypt_secret
  totp_setup req account secret nonce draws st =
      if not (has_password account)
      then (st, refused no_password)
      else store_secret req account secret draws (encrypt_secret site.totp nonce secret) st

  abbrev pub stored_secret : Option Account → Option Bytes
  stored_secret o = do acc ← o; enc ← acc.totp_secret; decrypt_secret site.totp enc

  abbrev pub switch_on :
      Request → Account → Text → Option Bytes → AppState site → AppState site × Answer
  switch_on req account code none st = (st, refused setup_missing)
  switch_on req account code (some secret) st =
      if not (verify site.totp secret req.now (trim code))
      then (st, refused code_mismatch)
      else if not (req.up 1)
      then (st, refused database_error)
      else (
        audited site (codes "auth.2fa.enable") (
            forget_account site account.id
              (update_account account.id (λ a. record a { totp_enabled = true }) st)),
        enabled,
      )

  abbrev pub enable_for :
      Request → Account → Text → Option Account → AppState site → AppState site × Answer
  enable_for req account code none st = (st, refused account_missing)
  enable_for req account code (some acc) st =
      switch_on req account code (stored_secret (some acc)) st

  unfoldable pub totp_enable : Request → Account → Text → AppState site → AppState site × Answer
  totp_enable req account code st =
      enable_for req account code (load_full_account site (req.up 0) account.id st) st

  abbrev pub clear_secret : Bool → ℕ → AppState site → AppState site
  clear_secret up id st =
      if up
      then update_account id (λ a. record a { totp_secret = none; totp_enabled = false }) st
      else st

  abbrev pub disable_for :
      Request → Account → Text → Option Account → AppState site → AppState site × Answer
  disable_for req account password none st = (st, refused account_missing)
  disable_for req account password (some acc) st =
      if not (site.validate_password password acc.password)
      then (st, refused invalid_password)
      else let cleared = clear_secret (req.up 1) account.id st in
        (
          audited site (codes "auth.2fa.disable") (
              forget_account site account.id
                (record cleared { recovery = clear_codes (req.up 2) account.id cleared.recovery })),
          disabled,
        )

  unfoldable pub totp_disable : Request → Account → Text → AppState site → AppState site × Answer
  totp_disable req account password st =
      disable_for req account password (load_full_account site (req.up 0) account.id st) st

  abbrev show_codes : AppState site × List Text → AppState site × Answer
  show_codes (st, fresh) = (audited site (codes "auth.2fa.recovery_codes") st, codes_shown fresh)

  abbrev pub renew_for :
      Request → Account → Text → List Text → Option Account → AppState site → AppState site × Answer
  renew_for req account password draws none st = (st, refused account_missing)
  renew_for req account password draws (some acc) st =
      if not (has_totp acc)
      then (st, refused totp_disabled)
      else if not (site.validate_password password acc.password)
      then (st, refused invalid_password)
      else show_codes (reset_recovery_codes req 1 account.id draws st)

  unfoldable pub totp_recovery_codes :
      Request → Account → Text → List Text → AppState site → AppState site × Answer
  unfolding reset_recovery_codes
  totp_recovery_codes req account password draws st =
      renew_for req account password draws (load_full_account site (req.up 0) account.id st) st
