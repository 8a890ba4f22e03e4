-- ===== src/Security/Coherence.antt =====
-- Every change of the password or the second factor keeps the caches in agreement with the tables.
use klappstuhl_me.Prelude.{
  ℕ, ◌≡◌, ◌≢◌, refl, sym, ap, ◌∙◌, Bool, true, false, not, ◌&&◌, Option, none, some, List, [], ◌∷◌,
  leb, ◌==◌, ==_iff, Bool-cases, inl, inr, arith,
}
use klappstuhl_me.Text.{Text, Bytes, text_eq, trim, byte_len}
use klappstuhl_me.Account.{Account, has_password, has_totp}
use klappstuhl_me.Cache.Reads.{get-remove_some}
use klappstuhl_me.Sessions.{account_row, invalidate_account_sessions, invalidate_account_cache}
use klappstuhl_me.Sessions.Coherence.{same_number}
use klappstuhl_me.Totp.{verify, encrypt_secret}
use klappstuhl_me.Site.{
  Site, Request, AppState, on_store, forget_account, login_session, load_full_account,
}
use klappstuhl_me.Login.Coherence.{
  CachesAgree, either_way, saved-CachesAgree, forget_account-CachesAgree,
  logins_revoked-CachesAgree,
}
use klappstuhl_me.Security.{
  ChangePasswordForm, with_row, update_account, replace_logins, write_password, with_owner,
  change_password, reset_recovery_codes, store_secret, totp_setup, stored_secret, switch_on,
  enable_for, totp_enable, clear_secret, disable_for, totp_disable, renew_for, totp_recovery_codes,
}

-- An update of one row leaves the others.
account_row-with_row :
    (id j : ℕ) (f : Account → Account) (accounts : List Account)
    → id ≢ j
    → ((a : Account) → (f a).id ≡ a.id)
    → account_row j (with_row id f accounts) ≡ account_row j accounts
account_row-with_row id j f [] other keeps = refl
account_row-with_row id j f (a ∷ accounts) other keeps =
    let later = account_row-with_row id j f accounts other keeps in
    elim (Bool-cases (a.id == id)) [
      | inr miss ↦ rw (miss, later) refl
      | inl hit ↦
          let elsewhere : (a.id == j) ≡ false =
            ne_test a.id j (λ e. other (sym ((==_iff a.id id).0 hit) ∙ e)) in
          rw (hit, ap (λ n. n == j) (keeps a), elsewhere, later) refl
    ]
  where
    ne_test : (m n : ℕ) → m ≢ n → (m == n) ≡ false
    ne_test m n h = ground arith

module _ (site : Site) where
  -- An update of a row with its copy in the cache forgotten.
  pub changed-CachesAgree :
      (id : ℕ) (f : Account → Account) (st : AppState site)
      → ((a : Account) → (f a).id ≡ a.id)
      → CachesAgree site st
      → CachesAgree site (forget_account site id (update_account site id f st))
  unfolding invalidate_account_cache
  changed-CachesAgree id f st keeps c = record {
    unique = c.unique;
    sessions_agree = c.sessions_agree;
    users_agree = λ j a e.
        let (other, old) = get-remove_some site.users same_number id j st.store.cached_users a e in
        account_row-with_row id j f st.store.accounts other keeps ∙ c.users_agree j a old;
  }

  -- With a token, a change of the password keeps the caches in agreement with the tables.
  pub change_password-CachesAgree :
      (req : Request) (salt : Bytes) (id : ℕ) (form : ChangePasswordForm) (token : Text)
      (st : AppState site)
      → req.token ≡ some token
      → CachesAgree site st
      → CachesAgree site (change_password site req salt id form st).0
  unfolding change_password
  change_password-CachesAgree req salt id form token st drawn c =
      either_way site
        (not (leb 8 (byte_len form.new_password) && leb (byte_len form.new_password) 128)) _ _ c
        (either_way site (not (text_eq form.new_password form.confirm_password)) _ _ c
          (either_way site (not (req.up 0)) _ _ c (owned (account_row id st.store.accounts))))
    where
      replaced :
          (acc : Account) (hash : Text) (o : Option Text)
          → o ≡ some token
          → CachesAgree site
              (replace_logins site req acc form.session_description o
                (update_account site acc.id (λ a. record a { password = hash }) st)).0
      replaced acc hash none e = cc
      replaced acc hash (some t) e =
          let written =
            forget_account site acc.id
              (update_account site acc.id (λ a. record a { password = hash }) st) in
          saved-CachesAgree site (req.up 3)
            (login_session req.now t acc.id form.session_description)
            (on_store site
              (invalidate_account_sessions site.sessions site.users site.max_token_age (req.up 2)
                acc.id)
              written)
            (logins_revoked-CachesAgree site (req.up 2) acc.id written
              (changed-CachesAgree acc.id (λ a. record a { password = hash }) st (λ a. refl) c))

      written :
          (acc : Account) (o : Option Text)
          → CachesAgree site (write_password site req form acc o st).0
      written acc none = c
      written acc (some hash) =
          either_way site (not (req.up 1)) _ _ c (replaced acc hash req.token drawn)

      owned : (o : Option Account) → CachesAgree site (with_owner site req salt form o st).0
      owned none = c
      owned (some acc) =
          either_way site
            (has_password acc && not (site.validate_password form.old_password acc.password)) _ _ c
            (written acc (site.hash_password salt form.new_password))

  pub totp_setup-CachesAgree :
      (req : Request) (account : Account) (secret : Bytes) (nonce : Option Bytes)
      (draws : List Text) (st : AppState site)
      → CachesAgree site st
      → CachesAgree site (totp_setup site req account secret nonce draws st).0
  unfolding totp_setup reset_recovery_codes
  totp_setup-CachesAgree req account secret nonce draws st c =
      either_way site (not (has_password account)) _ _ c
        (stored (encrypt_secret site.totp nonce secret))
    where
      stored :
          (o : Option Text) → CachesAgree site (store_secret site req account secret draws o st).0
      stored none = c
      stored (some encrypted) = either_way site (not (req.up 0)) _ _ c (
          changed-CachesAgree account.id
            (λ a. record a { totp_secret = some encrypted; totp_enabled = false }) st (λ a. refl) c)

  pub totp_enable-CachesAgree :
      (req : Request) (account : Account) (code : Text) (st : AppState site)
      → CachesAgree site st
      → CachesAgree site (totp_enable site req account code st).0
  unfolding totp_enable
  totp_enable-CachesAgree req account code st c =
      from (load_full_account site (req.up 0) account.id st)
    where
      switched : (o : Option Bytes) → CachesAgree site (switch_on site req account code o st).0
      switched none = c
      switched (some secret) =
          either_way site (not (verify site.totp secret req.now (trim code))) _ _ c (
            either_way site (not (req.up 1)) _ _ c (
              changed-CachesAgree account.id (λ a. record a { totp_enabled = true }) st (λ a. refl)
                c))

      from : (o : Option Account) → CachesAgree site (enable_for site req account code o st).0
      from none = c
      from (some acc) = switched (stored_secret site (some acc))

  pub totp_disable-CachesAgree :
      (req : Request) (account : Account) (password : Text) (st : AppState site)
      → CachesAgree site st
      → CachesAgree site (totp_disable site req account password st).0
  unfolding totp_disable
  totp_disable-CachesAgree req account password st c =
      from (load_full_account site (req.up 0) account.id st)
    where
      cleared :
          (up : Bool)
          → CachesAgree site (forget_account site account.id (clear_secret site up account.id st))
      cleared true =
          changed-CachesAgree account.id
            (λ a. record a { totp_secret = none; totp_enabled = false }) st (λ a. refl) c
      cleared false = forget_account-CachesAgree site account.id st c

      from : (o : Option Account) → CachesAgree site (disable_for site req account password o st).0
      from none = c
      from (some acc) =
          either_way site (not (site.validate_password password acc.password)) _ _ c
            (cleared (req.up 1))

  pub totp_recovery_codes-CachesAgree :
      (req : Request) (account : Account) (password : Text) (draws : List Text) (st : AppState site)
      → CachesAgree site st
      → CachesAgree site (totp_recovery_codes site req account password draws st).0
  unfolding totp_recovery_codes reset_recovery_codes
  totp_recovery_codes-CachesAgree req account password draws st c =
      from (load_full_account site (req.up 0) account.id st)
    where
      from :
          (o : Option Account) → CachesAgree site (renew_for site req account password draws o st).0
      from none = c
      from (some acc) =
          either_way site (not (has_totp acc)) _ _ c
            (either_way site (not (site.validate_password password acc.password)) _ _ c c)
