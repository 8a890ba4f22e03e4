-- ===== src/Tests/Site.antt =====
-- A site with toy libraries and caches that never evict, and requests to it.
use klappstuhl_me.Prelude.{
  ℕ, ◌≡◌, refl, true, false, Bool, Option, none, some, [], ◌∷◌, ◌++◌, replicate, drop, some_inj,
  arith,
}
use klappstuhl_me.Text.{Text, Bytes, codes, text_eq}
use klappstuhl_me.Account.{Account}
use klappstuhl_me.Cache.{unbounded, unbounded_texts}
use klappstuhl_me.Scope.{Session}
use klappstuhl_me.Lockout.{AttemptWindow}
use klappstuhl_me.Sessions.{SessionInfo}
use klappstuhl_me.Sessions.Coherence.{Coherent}
use klappstuhl_me.Totp.{TotpLib}
use klappstuhl_me.Totp.Secrets.{Decodes, Opens, Tags}
use klappstuhl_me.Site.{Site, PendingTotp, Request, AppState}
use klappstuhl_me.Login.Liveness.{Signs}
use klappstuhl_me.Tests.{alice}

abbrev pub toy_totp : TotpLib
toy_totp = record {
  hmac = λ key message. replicate 20 0;
  encrypt = λ nonce plain. some (replicate 16 0 ++ plain);
  decrypt = λ nonce cipher. some (drop 16 cipher);
  encode64 = λ bytes. bytes;
  decode64 = λ t. some t;
  sha256_hex = λ bytes. bytes;
  to_lowercase = λ t. t;
}

pub toy_totp-Decodes : Decodes toy_totp
toy_totp-Decodes bytes = refl

pub toy_totp-Opens : Opens toy_totp
toy_totp-Opens nonce plain sealed h = rw (← some_inj h) refl

pub toy_totp-Tags : Tags toy_totp
toy_totp-Tags nonce plain sealed h = rw (← some_inj h) (omega arith)

abbrev sign_parts : Bool → Option Text → Option Text → ℕ → ℕ → Option Text
sign_parts true none none id exp = some (id ∷ exp ∷ [])
sign_parts true none (some t) id exp = none
sign_parts true (some t) n id exp = none
sign_parts false d n id exp = none

abbrev read_parts : Text → Option PendingTotp
read_parts (id ∷ exp ∷ []) =
    some (record { account_id = id; remember = true; description = none; next = none; exp = exp })
read_parts [] = none
read_parts (id ∷ []) = none
read_parts (id ∷ exp ∷ c ∷ t) = none

abbrev pub toy_site : Site
toy_site = record {
  sessions = unbounded_texts SessionInfo;
  users = unbounded Account;
  lockout = unbounded AttemptWindow;
  max_token_age = 1000;
  totp = toy_totp;
  hash_password = λ salt password. some password;
  validate_password = text_eq;
  sign = λ p. sign_parts p.remember p.description p.next p.account_id p.exp;
  verify_pending = read_parts;
  incorrect_default_password_hash = codes "!";
  trusted_domain = codes "example.org";
}

parts_verify :
    (remember : Bool) (description next : Option Text) (id exp : ℕ) (signed : Text)
    → sign_parts remember description next id exp ≡ some signed
    → read_parts signed
      ≡ some (record {
        account_id = id;
        remember = remember;
        description = description;
        next = next;
        exp = exp;
      })
parts_verify true none none id exp signed h = rw (← some_inj h) refl
parts_verify true none (some t) id exp signed h = cc
parts_verify true (some t) n id exp signed h = cc
parts_verify false d n id exp signed h = cc

pub toy_site-Signs : Signs toy_site
toy_site-Signs p signed h = parts_verify p.remember p.description p.next p.account_id p.exp signed h

-- An account with a password and, first, no second factor.
abbrev pub dora : Account
dora = record alice { id = 3; name = codes "dora"; password = codes "password" }

abbrev pub dora_login : Session
dora_login = record {
  id = codes "d1";
  account_id = 3;
  created_at = 90;
  description = none;
  api_key = false;
  scopes = codes "";
}

abbrev pub dora_key : Session
dora_key = record dora_login { id = codes "d2"; api_key = true }

abbrev pub state_of : Account → AppState toy_site
state_of a = record {
  store = record {
    accounts = a ∷ alice ∷ [];
    rows = dora_login ∷ dora_key ∷ [];
    valid_sessions = λ k. none;
    cached_users = λ k. none;
  };
  recovery = record { account_id = 3; code_hash = codes "abc"; used_at = none } ∷ [];
  failures = λ k. none;
  audit = [];
}

abbrev pub quiet : AppState toy_site
quiet = state_of dora

pub quiet-Coherent : Coherent (unbounded_texts SessionInfo) (unbounded Account) 1000 quiet.store
unfolding text_eq
quiet-Coherent = record {
  unique = (refl, (refl, tt));
  sessions_agree = λ id info e. cc;
  users_agree = λ id a e. cc;
}

abbrev pub request : Request
request = record { ip = some 7; now = 100; up = λ n. true; token = some (codes "tok") }

abbrev pub secret : Bytes
secret = 1 ∷ 2 ∷ []

abbrev pub nonce : Bytes
nonce = replicate 12 9

abbrev pub sealed_secret : Text
sealed_secret = nonce ++ replicate 16 0 ++ secret

abbrev pub guarded_dora : Account
guarded_dora = record dora { totp_secret = some sealed_secret; totp_enabled = true }
