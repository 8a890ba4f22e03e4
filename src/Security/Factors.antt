-- ===== src/Security/Factors.antt =====
-- A second factor that was set up and proved guards the account; disabled, it leaves nothing.
use klappstuhl_me.Prelude.{
  ℕ, ◌+◌, ◌≤◌, ◌≡◌, refl, ap, ◌∙◌, true, false, not, none, some, List, [], ◌∷◌, ◌==◌, Bool-cases,
  inl, inr, length, any, keep_if, some_inj,
}
use klappstuhl_me.Text.{Text, Bytes, codes, trim}
use klappstuhl_me.Account.{Account, has_password, has_totp}
use klappstuhl_me.Sessions.{account_row, invalidate_account_cache}
use klappstuhl_me.Totp.{
  verify, current_code, encrypt_secret, decrypt_secret, time_step, nonce_len,
  generate_recovery_codes,
}
use klappstuhl_me.Totp.Codes.{verify-trim-current_code}
use klappstuhl_me.Totp.Secrets.{Decodes, Opens, Tags, decrypt_secret-encrypt_secret}
use klappstuhl_me.Site.{Site, Request, RecoveryCode, AppState, audited, forget_account}
use klappstuhl_me.Security.{
  setup_shown, enabled, with_row, update_account, reset_recovery_codes, totp_setup, stored_secret,
  totp_enable, totp_disable,
}

account_row-with_row_same :
    (id : ℕ) (f : Account → Account) (accounts : List Account) (a : Account)
    → ((b : Account) → (f b).id ≡ b.id)
    → account_row id accounts ≡ some a
    → account_row id (with_row id f accounts) ≡ some (f a)
account_row-with_row_same id f [] a keeps h = cc
account_row-with_row_same id f (b ∷ accounts) a keeps h = elim (Bool-cases (b.id == id)) [
  | inr miss ↦ rw (miss, miss) (account_row-with_row_same id f accounts a keeps (rw miss at h))
  | inl hit ↦
      let same : b ≡ a = some_inj (rw hit at h) in
      let named : ((f b).id == id) ≡ true = ap (λ n. n == id) (keeps b) ∙ hit in
      rw (hit, named) (ap (λ c. some (f c)) same)
]

no_codes :
    (id : ℕ) (cs : List RecoveryCode)
    → any
        (λ (c : RecoveryCode). c.account_id == id)
        (keep_if (λ (c : RecoveryCode). not (c.account_id == id)) cs)
      ≡ false
no_codes id [] = refl
no_codes id (c ∷ cs) = elim (Bool-cases (c.account_id == id)) [
  | inl mine ↦ rw mine (no_codes id cs)
  | inr other ↦ rw (other, other) (no_codes id cs)
]

module _ (site : Site) where
  -- A fresh secret for an account with a password, of which the stored text is `encrypted`.
  pub record Enrolling (req : Request) (account : Account) (secret nonce : Bytes) (encrypted : Text)
      (st : AppState site) : Type 0 where
    pub passworded : has_password account ≡ true
    pub sized : length nonce ≡ nonce_len
    pub sealed : encrypt_secret site.totp (some nonce) secret ≡ some encrypted
    pub up : req.up 0 ≡ true

  abbrev enrolled : Text → Account → Account
  enrolled encrypted a = record a { totp_secret = some encrypted; totp_enabled = false }

  abbrev after_setup : Request → Account → List Text → Text → AppState site → AppState site
  after_setup req account draws encrypted st = audited site (codes "auth.2fa.setup") (
      forget_account site account.id
        (reset_recovery_codes site req 1 account.id draws
          (update_account site account.id (enrolled encrypted) st)).0)

  abbrev after_enable : Account → AppState site → AppState site
  after_enable account st = audited site (codes "auth.2fa.enable") (
      forget_account site account.id
        (update_account site account.id (λ a. record a { totp_enabled = true }) st))

  setup_lem :
      (req : Request) (account : Account) (secret nonce : Bytes) (encrypted : Text)
      (draws : List Text) (st : AppState site)
      → Enrolling req account secret nonce encrypted st
      → totp_setup site req account secret (some nonce) draws st ≡ (
        after_setup req account draws encrypted st,
        setup_shown secret (generate_recovery_codes draws),
      )
  unfolding totp_setup reset_recovery_codes
  setup_lem req account secret nonce encrypted draws st e = rw (e.passworded, e.sealed, e.up) refl

  setup_row :
      (req : Request) (account row : Account) (draws : List Text) (encrypted : Text)
      (st : AppState site)
      → account_row account.id st.store.accounts ≡ some row
      → account_row account.id (after_setup req account draws encrypted st).store.accounts
        ≡ some (enrolled encrypted row)
  unfolding reset_recovery_codes invalidate_account_cache
  setup_row req account row draws encrypted st h =
      account_row-with_row_same account.id (enrolled encrypted) st.store.accounts row (λ b. refl) h

  enable_lem :
      (req : Request) (account row : Account) (encrypted : Text) (secret : Bytes) (code : Text)
      (st : AppState site)
      → req.up 0 ≡ true
      → req.up 1 ≡ true
      → account_row account.id st.store.accounts ≡ some (enrolled encrypted row)
      → decrypt_secret site.totp encrypted ≡ some secret
      → verify site.totp secret req.now (trim code) ≡ true
      → totp_enable site req account code st ≡ (after_enable account st, enabled)
  unfolding totp_enable
  enable_lem req account row encrypted secret code st reads writes h opens right =
      rw (reads, h, opens, right, writes) refl

  enable_row :
      (account row : Account) (st : AppState site)
      → account_row account.id st.store.accounts ≡ some row
      → account_row account.id (after_enable account st).store.accounts
        ≡ some (record row { totp_enabled = true })
  unfolding invalidate_account_cache
  enable_row account row st h =
      account_row-with_row_same account.id (λ a. record a { totp_enabled = true }) st.store.accounts
        row (λ b. refl) h

  -- With an encryption that opens, a user with a password who sets up a second factor and then types
  -- the authenticator's code, within 30 seconds of its being shown, has it enabled: the account's row
  -- asks for it from then on, with the secret that was shown.
  pub totp_enable-totp_setup :
      (req req' : Request) (account row : Account) (secret nonce : Bytes) (encrypted : Text)
      (draws : List Text) (shown : ℕ) (st : AppState site)
      → Decodes site.totp
      → Opens site.totp
      → Tags site.totp
      → Enrolling req account secret nonce encrypted st
      → account_row account.id st.store.accounts ≡ some row
      → req'.up 0 ≡ true
      → req'.up 1 ≡ true
      → shown ≤ req'.now
      → req'.now ≤ shown + time_step
      → (mid : AppState site) × (out : AppState site) × (guarded : Account) × (totp_setup site req
            account secret
            (some nonce)
            draws
            st
          ≡ (mid, setup_shown secret (generate_recovery_codes draws)))
        × (totp_enable site req' account (current_code site.totp secret shown) mid ≡ (out, enabled))
        × (account_row account.id out.store.accounts ≡ some guarded)
        × (has_totp guarded ≡ true)
        × (stored_secret site (some guarded) ≡ some secret)
  totp_enable-totp_setup req req' account row secret nonce encrypted draws shown st decodes opens
        tags e listed reads writes seen recent =
      let mid = after_setup req account draws encrypted st in
      let there = setup_row req account row draws encrypted st listed in
      let opened =
        decrypt_secret-encrypt_secret site.totp nonce secret encrypted decodes opens tags e.sized
          e.sealed in
      (
        mid,
        after_enable account mid,
        record row { totp_secret = some encrypted; totp_enabled = true },
        setup_lem req account secret nonce encrypted draws st e,
        enable_lem req' account row encrypted secret (current_code site.totp secret shown) mid reads
            writes there opened
            (verify-trim-current_code site.totp secret req'.now shown seen recent),
        enable_row account (enrolled encrypted row) mid there,
        unfold has_totp in refl,
        opened,
      )

  -- Disabling a second factor takes the password; where its statements are answered, the row has
  -- neither secret nor flag, and no recovery code of the account is left, used or not.
  pub totp_disable-clears :
      (req : Request) (account row : Account) (password : Text) (st : AppState site)
      → account_row account.id st.store.accounts ≡ some row
      → req.up 0 ≡ true
      → req.up 1 ≡ true
      → req.up 2 ≡ true
      → (site.validate_password password row.password ≡ true
          → (account_row account.id (totp_disable site req account password st).0.store.accounts
              ≡ some (record row { totp_secret = none; totp_enabled = false }))
            × (any
                  (λ (c : RecoveryCode). c.account_id == account.id)
                  (totp_disable site req account password st).0.recovery
                ≡ false))
        × (site.validate_password password row.password ≡ false
            → (totp_disable site req account password st).0 ≡ st)
  unfolding totp_disable invalidate_account_cache
  totp_disable-clears req account row password st listed reads writes deletes = (
    λ proved.
        rw (reads, listed, proved, writes, deletes)
          (
            account_row-with_row_same account.id
                (λ a. record a { totp_secret = none; totp_enabled = false }) st.store.accounts row
                (λ b. refl) listed,
            no_codes account.id st.recovery,
          ),
    λ wrong. rw (reads, listed, wrong) refl,
  )
