-- ===== src/Deletion/Guards.antt =====
-- What an account's deletion takes, and that a refusal destroys nothing.
use klappstuhl_me.Prelude.{
  ◌≡◌, ◌≢◌, refl, sym, ap, Bool, true, false, not, ◌&&◌, Option, none, some, if◌then◌else◌,
  true_of_not,
}
use klappstuhl_me.Text.{Text, text_eq, trim}
use klappstuhl_me.Account.{Account, has_password, has_totp}
use klappstuhl_me.Scope.{Session}
use klappstuhl_me.Site.{passed, Site, Request, load_full_account}
use klappstuhl_me.Login.{secret_of}
use klappstuhl_me.Deletion.{
  DeleteAccountForm, Reason, api_key_session, no_session, last_admin, username_mismatch,
  account_missing, no_password, bad_password, bad_totp, sql_error, Answer, refused, deleted, Estate,
  purge_account, refuse, is_last_admin, finish, destroy, code_matches, second_factor,
  reauthenticate, confirm, from_session, own_session, delete_account,
}

module _ (site : Site) where
  abbrev Reply : Type 0
  Reply = Estate site × Answer

  -- What a deletion went through and did.
  pub record Deleted (req : Request) (session : Text) (account : Account) (form : DeleteAccountForm)
      (e out : Estate site) : Type 0 where
    pub login : Session
    pub full : Account
    pub present : own_session site (req.up 0) session account.id e.app.store ≡ some login
    pub browser : login.api_key ≡ false
    pub spared : is_last_admin site (req.up 1) account e.app.store.accounts ≡ false
    pub confirmed : text_eq (trim form.username) account.name ≡ true
    pub loaded : load_full_account site (req.up 2) account.id e.app ≡ some full
    pub passworded : has_password full ≡ true
    pub proved : site.validate_password form.password full.password ≡ true
    pub second :
        (has_totp full && not (code_matches site req form.code (secret_of site full))) ≡ false
    pub done : out ≡ finish site req account (purge_account site account.id form.delete_images e)

  refusal :
      (req : Request) (r : Reason) (lockout : Bool) (e out : Estate site)
      → ◌≢◌ {A = Reply} (refuse site req r lockout e) (out, deleted)
  unfolding refuse
  refusal req r lockout e out h = cc (ap (λ (p : Reply). p.1) h)

  -- An account goes only for a browser login of it, with its name typed, its password, and the code of
  -- its second factor if it has one; it is not the last administrator's. A recovery code is no code.
  pub delete_account-Deleted :
      (req : Request) (session : Text) (account : Account) (form : DeleteAccountForm)
      (e out : Estate site)
      → delete_account site req session account form e ≡ (out, deleted)
      → Deleted req session account form e out
  unfolding delete_account
  delete_account-Deleted req session account form e out h =
      from (own_session site (req.up 0) session account.id e.app.store) refl h
    where
      entered :
          (login : Session) (full : Account)
          → own_session site (req.up 0) session account.id e.app.store ≡ some login
          → login.api_key ≡ false
          → is_last_admin site (req.up 1) account e.app.store.accounts ≡ false
          → text_eq (trim form.username) account.name ≡ true
          → load_full_account site (req.up 2) account.id e.app ≡ some full
          → reauthenticate site req account form (some full) e ≡ (out, deleted)
          → Deleted req session account form e out
      entered login full a b c d f k =
          let fourth = destroy site req account form e in
          let third = second_factor site req account form full e in
          let second =
            if not (site.validate_password form.password full.password)
            then refuse site req bad_password true e
            else third in
          let (passworded, k1) =
            passed (not (has_password full)) (refuse site req no_password false e) second
              (out, deleted) (refusal req no_password false e out) k in
          let (proved, k2) =
            passed (not (site.validate_password form.password full.password))
              (refuse site req bad_password true e) third (out, deleted)
              (refusal req bad_password true e out) k1 in
          let (factor, k3) =
            passed (has_totp full && not (code_matches site req form.code (secret_of site full)))
              (refuse site req bad_totp true e) fourth (out, deleted)
              (refusal req bad_totp true e out) k2 in
          let last : Reply = (
            finish site req account (purge_account site account.id form.delete_images e),
            deleted,
          ) in
          let (_, k4) =
            passed (not (req.up 4)) (refuse site req sql_error false e) last (out, deleted)
              (refusal req sql_error false e out) k3 in
          record {
            login = login;
            full = full;
            present = a;
            browser = b;
            spared = c;
            confirmed = d;
            loaded = f;
            passworded = true_of_not _ passworded;
            proved = true_of_not _ proved;
            second = factor;
            done = sym (ap (λ (p : Reply). p.0) k4);
          }

      owned :
          (login : Session) (o : Option Account)
          → own_session site (req.up 0) session account.id e.app.store ≡ some login
          → login.api_key ≡ false
          → is_last_admin site (req.up 1) account e.app.store.accounts ≡ false
          → text_eq (trim form.username) account.name ≡ true
          → load_full_account site (req.up 2) account.id e.app ≡ o
          → reauthenticate site req account form o e ≡ (out, deleted)
          → Deleted req session account form e out
      owned login none a b c d f k = absurd (refusal req account_missing false e out k)
      owned login (some full) a b c d f k = entered login full a b c d f k

      from :
          (o : Option Session)
          → own_session site (req.up 0) session account.id e.app.store ≡ o
          → from_session site req account form o e ≡ (out, deleted)
          → Deleted req session account form e out
      from none a k = absurd (refusal req no_session false e out k)
      from (some login) a k =
          let rest =
            reauthenticate site req account form
              (load_full_account site (req.up 2) account.id e.app) e in
          let named =
            if not (text_eq (trim form.username) account.name)
            then refuse site req username_mismatch false e
            else rest in
          let (browser, k1) =
            passed login.api_key (refuse site req api_key_session false e)
              (confirm site req account form e) (out, deleted)
              (refusal req api_key_session false e out) k in
          let (spared, k2) =
            passed (is_last_admin site (req.up 1) account e.app.store.accounts)
              (refuse site req last_admin false e) named (out, deleted)
              (refusal req last_admin false e out) k1 in
          let (confirmed, k3) =
            passed (not (text_eq (trim form.username) account.name))
              (refuse site req username_mismatch false e) rest (out, deleted)
              (refusal req username_mismatch false e out) k2 in
          owned login (load_full_account site (req.up 2) account.id e.app) a browser spared
            (true_of_not _ confirmed) refl k3

  -- Nothing but the audit trail and the failures of the address differs.
  pub record Untouched (before after : Estate site) : Type 0 where
    pub store : after.app.store ≡ before.app.store
    pub recovery : after.app.recovery ≡ before.app.recovery
    pub pastes : after.pastes ≡ before.pastes
    pub links : after.links ≡ before.links
    pub images : after.images ≡ before.images

  abbrev Harmless : Estate site → Reply → Type 0
  Harmless e r = (reason : Reason) → r.1 ≡ refused reason → Untouched e r.0

  refuse-Harmless :
      (req : Request) (r : Reason) (lockout : Bool) (e : Estate site)
      → Harmless e (refuse site req r lockout e)
  unfolding refuse
  refuse-Harmless req r true e reason h = record {
    store = refl;
    recovery = refl;
    pastes = refl;
    links = refl;
    images = refl;
  }
  refuse-Harmless req r false e reason h = record {
    store = refl;
    recovery = refl;
    pastes = refl;
    links = refl;
    images = refl;
  }

  either :
      (b : Bool) (e : Estate site) (r s : Reply)
      → Harmless e r
      → Harmless e s
      → Harmless e (if b then r else s)
  either true e r s h k = h
  either false e r s h k = k

  -- A refused deletion changes nothing but the audit trail and the failures of the address: no row of
  -- the account, its sessions, codes, pastes, links or images.
  pub delete_account-Untouched :
      (req : Request) (session : Text) (account : Account) (form : DeleteAccountForm)
      (e : Estate site) (reason : Reason)
      → (delete_account site req session account form e).1 ≡ refused reason
      → Untouched e (delete_account site req session account form e).0
  unfolding delete_account
  delete_account-Untouched req session account form e =
      from (own_session site (req.up 0) session account.id e.app.store)
    where
      no : (r : Reason) (lockout : Bool) → Harmless e (refuse site req r lockout e)
      no r lockout = refuse-Harmless req r lockout e

      destroyed : Harmless e (destroy site req account form e)
      destroyed = either (not (req.up 4)) e _ _ (no sql_error false) (λ reason h. cc)

      owned : (o : Option Account) → Harmless e (reauthenticate site req account form o e)
      owned none = no account_missing false
      owned (some full) = either (not (has_password full)) e _ _ (no no_password false) (
          either (not (site.validate_password form.password full.password)) e _ _
            (no bad_password true)
            (either (has_totp full && not (code_matches site req form.code (secret_of site full))) e
              _ _ (no bad_totp true) destroyed))

      from : (o : Option Session) → Harmless e (from_session site req account form o e)
      from none = no no_session false
      from (some login) = either login.api_key e _ _ (no api_key_session false) (
          either (is_last_admin site (req.up 1) account e.app.store.accounts) e _ _
            (no last_admin false)
            (either (not (text_eq (trim form.username) account.name)) e _ _
              (no username_mismatch false)
              (owned (load_full_account site (req.up 2) account.id e.app))))
