-- ===== src/Tests.antt =====
-- Sample values for the examples of the modules below, and a toy version of the libraries that
-- meets what the code relies on.
pub mod Pastes
pub mod Bodies
pub mod Accounts
pub mod Limits
pub mod Sessions
pub mod Site
pub mod Login
pub mod Security
pub mod ApiToken
pub mod Discord
pub mod Deletion
use klappstuhl_me.Prelude.{
  ℕ, ◌≡◌, refl, sym, ap, Bool, true, false, Option, none, some, List, [], ◌∷◌, ◌++◌, if◌then◌else◌,
  take, replicate, Bool-cases, inl, inr, some_inj, length,
}
use klappstuhl_me.Prelude.Int.{pos}
use klappstuhl_me.Text.{Text, Bytes, codes, text_eq, encode}
use klappstuhl_me.Text.Equality.{text_eq_sound}
use klappstuhl_me.Account.{Account}
use klappstuhl_me.Paste.Row.{Paste, unlisted}
use klappstuhl_me.Paste.External.{External, UnlockClaim, Opens, Verifies, Decodes}
use klappstuhl_me.Paste.Store.{Db}
use klappstuhl_me.Paste.Store.WellFormed.{WellFormed}
use klappstuhl_me.Paste.Service.{PasteConfig, Env, NewPaste, EditPaste}

abbrev pub sample_id : Text
sample_id = codes "pp"

abbrev uncover : Bytes → Option Bytes
uncover [] = none
uncover (c ∷ cs) = some cs

abbrev claim_in : Text → Option UnlockClaim
claim_in [] = none
claim_in (e ∷ k) = some (record { id = sample_id; key = k; exp = e })

abbrev pub toy : External
toy = record {
  hash_password_into = λ password salt. some (take 32 (password ++ salt ++ replicate 32 0));
  encrypt = λ key nonce plain. some (1 ∷ plain);
  decrypt = λ key nonce cipher. uncover cipher;
  digest = λ bytes. take 2 bytes;
  scan = λ t. [];
  encode64 = λ bytes. bytes;
  decode64 = λ t. some t;
  sign = λ claim. if text_eq claim.id sample_id then some (claim.exp ∷ claim.key) else none;
  verify = claim_in;
}

pub toy-Opens : Opens toy
toy-Opens key nonce plain sealed h = rw (← some_inj h)

pub toy-Verifies : Verifies toy
toy-Verifies claim token h = elim (Bool-cases (text_eq claim.id sample_id)) [
  | inr other ↦ cc (rw other at h)
  | inl same ↦ rw (← some_inj (rw same at h)) (
      ap (λ i. some (record { id = i; key = claim.key; exp = claim.exp }))
        (sym (text_eq_sound claim.id sample_id same)))
]

pub toy-Decodes : Decodes toy
toy-Decodes bytes = refl

abbrev pub alice : Account
alice = record {
  id = 1;
  name = codes "alice";
  password = codes "!";
  flags = 0;
  totp_secret = none;
  totp_enabled = false;
  discord_id = none;
}

abbrev pub bob : Account
bob = record alice { id = 2; name = codes "bob" }

abbrev pub config : PasteConfig
config = record {
  anonymous = true;
  max_bytes = 1000;
  anonymous_max_bytes = 500;
  anonymous_ttl_days = pos 7;
  account_limit = 2;
  account_max_total_bytes = 1000;
}

abbrev pub env : Env
env = record {
  now = 1000;
  fresh_id = sample_id;
  fresh_token = codes "token";
  random_salt = some (5 ∷ []);
  random_nonce = some (6 ∷ []);
  up = λ n. true;
}

abbrev pub hello : NewPaste
hello = record {
  content = codes "hello";
  title = none;
  language = none;
  visibility = unlisted;
  burn_after_read = false;
  password = none;
  expires_in = none;
  fork_of = none;
  confirm_secrets = false;
}

abbrev pub change : EditPaste
change = record {
  content = codes "bye";
  title = none;
  language = none;
  visibility = none;
  expires_in = none;
  password = some (codes "pw");
  confirm_secrets = false;
}

-- A paste of alice, sealed under a password.
abbrev pub sealed_paste : Paste
sealed_paste = record {
  id = sample_id;
  account_id = some 1;
  title = none;
  content = 1 ∷ codes "hello";
  language = none;
  visibility = unlisted;
  burn_after_read = false;
  enc_salt = some (5 ∷ []);
  enc_nonce = some (6 ∷ []);
  edit_token_hash = none;
  size_bytes = 6;
  fork_of = none;
  creator_ip = none;
  views = 0;
  created_at = 900;
  updated_at = none;
  expires_at = some 2000;
}

abbrev pub tables : Db
tables = record { pastes = sealed_paste ∷ []; revisions = []; next_revision = 1; audit = [] }

pub tables-WellFormed : WellFormed tables
tables-WellFormed = record {
  unique = (refl, tt);
  sound = (record { sized = refl; sealed = refl; expiring = refl; editable = refl }, tt);
  history = tt;
}
