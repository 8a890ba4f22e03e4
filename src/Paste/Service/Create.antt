-- ===== src/Paste/Service/Create.antt =====
-- `usage`, `check_quota`, `create` and `fork` of src/site/paste/service.rs.
pub mod Accepted
pub mod Quota
pub mod Forks
use klappstuhl_me.Prelude.{
  ℕ, ◌+◌, Bool, true, false, not, ◌&&◌, Option, none, some, List, [], ◌∷◌, ◌++◌, if◌then◌else◌, ltb,
  leb, length, is_some,
}
use klappstuhl_me.Text.{Text, Bytes, codes, trim, is_empty, byte_len, encode}
use klappstuhl_me.Account.{Account, is_admin}
use klappstuhl_me.Paste.Row.{Visibility, unlisted, Paste}
use klappstuhl_me.Paste.External.{External}
use klappstuhl_me.Paste.Crypto.{Sealed, seal}
use klappstuhl_me.Paste.Error.{
  PasteError, empty, too_large, anonymous_disabled, quota_count, quota_bytes, crypto, db, Result,
  ok, err, ◌>>=◌, ◌>>◌, refuse, ok_or,
}
use klappstuhl_me.Paste.Access.{
  Creator, account, anonymous, account_id, is_anonymous, hash_edit_token,
}
use klappstuhl_me.Paste.Validate.{
  normalize_title, normalize_language, check_for_secrets, resolve_expiry,
}
use klappstuhl_me.Paste.Store.{Db, AuditRecord, may_insert, owned, total_bytes}
use klappstuhl_me.Paste.Service.{PasteConfig, Env, later, NewPaste, Created}
use klappstuhl_me.Paste.Service.Read.{load}

-- Zero of both where the database does not answer.
unfoldable pub usage : Env → ℕ → Db → ℕ × ℕ
usage env id d =
    if env.up 0 then (length (owned id d.pastes), total_bytes (owned id d.pastes)) else (0, 0)

unfoldable pub check_quota : PasteConfig → Env → Account → ℕ → Db → Result (Unit {0})
unfolding usage
check_quota config env acc incoming d =
    let (count, bytes) = usage env acc.id d in
    if is_admin acc
    then ok tt
    else if leb config.account_limit count
    then err (quota_count config.account_limit)
    else if ltb config.account_max_total_bytes (bytes + incoming)
    then err (quota_bytes config.account_max_total_bytes)
    else ok tt

-- Only an account has a quota.
abbrev creator_quota : PasteConfig → Env → Creator → ℕ → Db → Result (Unit {0})
creator_quota config env (account acc) incoming d = check_quota config env acc incoming d
creator_quota config env anonymous incoming d = ok tt

abbrev pub Body : Type 0
Body = Bytes × Option Bytes × Option Bytes

-- `password.filter(|p| !p.is_empty())`.
abbrev pub given_password : Option Text → Option Text
given_password none = none
given_password (some p) = if is_empty p then none else some p

abbrev pub sealed_body : Option Sealed → Result Body
sealed_body none = err crypto
sealed_body (some s) = ok (s.ciphertext, some s.salt, some s.nonce)

abbrev pub body_under : External → Env → Text → Option Text → Result Body
body_under x env content none = ok (encode content, none, none)
body_under x env content (some password) =
    sealed_body (seal x env.random_salt env.random_nonce password (encode content))

-- The stored body with its salt and nonce.
unfoldable pub seal_body : External → Env → Text → Option Text → Result Body
unfolding seal
seal_body x env content password = body_under x env content (given_password password)

abbrev pub max_bytes_for : PasteConfig → Bool → ℕ
max_bytes_for config stranger = if stranger then config.anonymous_max_bytes else config.max_bytes

abbrev hashed : External → Option Text → Option Text
hashed x none = none
hashed x (some token) = some (hash_edit_token x token)

module _ (x : External) (config : PasteConfig) (env : Env) where
  -- The row that `INSERT` writes.
  unfoldable pub new_row :
      Creator → Option Text → NewPaste → Option Text → Option Text → Body → Option ℕ → Paste
  unfolding is_anonymous account_id hash_edit_token
  new_row creator client_ip new title language (body, salt, nonce) expires_at = record {
    id = env.fresh_id;
    account_id = account_id creator;
    title = title;
    content = body;
    language = language;
    visibility = new.visibility;
    burn_after_read = new.burn_after_read;
    enc_salt = salt;
    enc_nonce = nonce;
    edit_token_hash =
        if is_anonymous creator then some (hash_edit_token x env.fresh_token) else none;
    size_bytes = length body;
    fork_of = new.fork_of;
    creator_ip = if is_anonymous creator then client_ip else none;
    views = 0;
    created_at = env.now;
    updated_at = none;
    expires_at = expires_at;
  }

  -- Everything before the `INSERT`.
  unfoldable pub prepare : Creator → Option Text → NewPaste → Db → Result Paste
  prepare creator client_ip new d = do
    refuse (is_anonymous creator && not config.anonymous) anonymous_disabled
    refuse (is_empty (trim new.content)) empty
    let max_bytes = max_bytes_for config (is_anonymous creator)
    refuse (ltb max_bytes (byte_len new.content)) (too_large max_bytes)
    title ← normalize_title new.title
    let language = normalize_language new.language
    check_for_secrets x new.content (is_anonymous creator) new.confirm_secrets
    creator_quota config env creator (byte_len new.content) d
    let expires_at =
        resolve_expiry env.now new.expires_in (is_anonymous creator) config.anonymous_ttl_days
    body ← seal_body x env new.content new.password
    ok (new_row creator client_ip new title language body expires_at)

  abbrev pub recorded : Text → Option ℕ → Text → Option Text → Db → Db
  recorded action actor_id target ip d = record d {
    audit = record { action = action; actor_id = actor_id; target = target; ip = ip } ∷ d.audit;
  }

  -- The `INSERT`, the audit entry and the `load` that ends `create`. The statement before them is the
  -- count of the quota; a failure of the `load` comes after the row is stored.
  unfoldable pub store : Creator → Option Text → Paste → Db → Db × Result Created
  store creator client_ip row d =
      if env.up 1 && may_insert row d.pastes
      then (let stored = record d { pastes = row ∷ d.pastes } in
          (
            recorded (codes "paste.create") (account_id creator) row.id client_ip stored,
            (do
              paste ← ok_or (load (later 2 env) row.id stored) db
              ok (record {
                paste = paste;
                edit_token = if is_anonymous creator then some env.fresh_token else none;
              })),
          ))
      else (d, err db)

  abbrev and_store : Creator → Option Text → Db → Result Paste → Db × Result Created
  and_store creator client_ip d (err e) = (d, err e)
  and_store creator client_ip d (ok row) = store creator client_ip row d

  unfoldable pub create : Creator → Option Text → NewPaste → Db → Db × Result Created
  create creator client_ip new d = and_store creator client_ip d (prepare creator client_ip new d)

  abbrev fork_title : Paste → Text
  fork_title source = codes "Fork of " ++ (elim source.title [ some t ↦ t | none ↦ source.id ])

  -- A fork is a new unlisted paste of the plaintext; every other choice is the default.
  unfoldable pub fork : Paste → Text → Creator → Option Text → Db → Db × Result Created
  fork source plaintext creator client_ip d =
      create creator client_ip
        (record {
          content = plaintext;
          title = some (fork_title source);
          language = source.language;
          visibility = unlisted;
          burn_after_read = false;
          password = none;
          expires_in = none;
          fork_of = some source.id;
          confirm_secrets = false;
        })
        d
