-- ===== src/Site.antt =====
-- What the handlers of src/site/account share: the state of the program, what a request brings, and
-- the helpers of src/site/account/mod.rs. `up n` says whether the database answers the n-th statement
-- of a request.
use klappstuhl_me.Prelude.{
  ◌≡◌, ◌≢◌, refl, ℕ, Bool, true, false, Option, none, some, List, [], ◌∷◌, if◌then◌else◌,
}
use klappstuhl_me.Text.{Text, Bytes}
use klappstuhl_me.Account.{Account}
use klappstuhl_me.Cache.{Cache}
use klappstuhl_me.Lockout.{AttemptWindow, register_failure}
use klappstuhl_me.Scope.{Session}
use klappstuhl_me.Sessions.{SessionInfo, State, account_row, invalidate_account_cache, save_session}
use klappstuhl_me.Totp.{TotpLib}

-- The signed cookie between the two steps of a login.
pub record PendingTotp : Type 0 where
  pub account_id : ℕ
  pub remember : Bool
  pub description : Option Text
  pub next : Option Text
  pub exp : ℕ

-- The caches, the configuration and the libraries.
pub record Site : Type 1 where
  pub sessions : Cache Text SessionInfo
  pub users : Cache ℕ Account
  pub lockout : Cache ℕ AttemptWindow
  pub max_token_age : ℕ
  pub totp : TotpLib
  -- Argon2, from a salt and a password; and its check.
  pub hash_password : Bytes → Text → Option Text
  pub validate_password : Text → Text → Bool
  -- `SecretKey::sign` and `SecretKey::verify`.
  pub sign : PendingTotp → Option Text
  pub verify_pending : Text → Option PendingTotp
  pub incorrect_default_password_hash : Text
  pub trusted_domain : Text

pub record RecoveryCode : Type 0 where
  pub account_id : ℕ
  pub code_hash : Text
  pub used_at : Option ℕ

-- Who asks, when, which statements are answered, and the token that is drawn.
pub record Request : Type 0 where
  pub ip : Option ℕ
  pub now : ℕ
  pub up : ℕ → Bool
  pub token : Option Text

abbrev pub login_session : ℕ → Text → ℕ → Option Text → Session
login_session now id account_id description = record {
  id = id;
  account_id = account_id;
  created_at = now;
  description = description;
  api_key = false;
  scopes = [];
}

-- What is not the early answer has passed the test.
pub passed :
    {A : Type 0} (b : Bool) (early late goal : A)
    → early ≢ goal
    → (if b then early else late) ≡ goal
    → (b ≡ false) × (late ≡ goal)
passed false early late goal other h = (refl, h)
passed true early late goal other h = absurd (other h)

module _ (site : Site) where
  abbrev pub Store : Type 0
  Store = State site.sessions site.users site.max_token_age

  pub record AppState : Type 0 where
    pub store : Store
    pub recovery : List RecoveryCode
    pub failures : site.lockout.Table
    pub audit : List Text

  abbrev pub audited : Text → AppState → AppState
  audited action st = record st { audit = action ∷ st.audit }

  abbrev pub on_store : (Store → Store) → AppState → AppState
  on_store f st = record st { store = f st.store }

  abbrev pub forget_account : ℕ → AppState → AppState
  forget_account id =
      on_store (invalidate_account_cache site.sessions site.users site.max_token_age id)

  abbrev pub saved : Bool → Session → AppState → AppState
  saved up s = on_store (save_session site.sessions site.users site.max_token_age up s)

  abbrev pub count_failure : ℕ → Option ℕ → site.lockout.Table → site.lockout.Table
  count_failure now none t = t
  count_failure now (some ip) t = register_failure site.lockout now ip t

  -- An unknown address is not counted.
  abbrev pub failed : Text → Request → AppState → AppState
  failed action req st = record (audited action st) {
    failures = count_failure req.now req.ip st.failures;
  }

  abbrev pub load_full_account : Bool → ℕ → AppState → Option Account
  load_full_account up id st = if up then account_row id st.store.accounts else none
