-- ===== src/Paste/Service/Modify.antt =====
-- `edit` and `delete` of src/site/paste/service.rs.
pub mod Edited
pub mod Sealing
use klappstuhl_me.Prelude.{
  ℕ, suc, ◌+◌, Bool, true, false, not, ◌&&◌, Option, none, some, List, [], ◌∷◌, if◌then◌else◌, ltb,
  length, is_some, or_else,
}
use klappstuhl_me.Prelude.Int.{ℤ}
use klappstuhl_me.Text.{Text, Bytes, codes, trim, is_empty, byte_len, encode}
use klappstuhl_me.Account.{Account}
use klappstuhl_me.Paste.Row.{Visibility, Paste, PasteRevision, is_encrypted}
use klappstuhl_me.Paste.External.{External}
use klappstuhl_me.Paste.Crypto.{open_and_keep_key, seal_with_key}
use klappstuhl_me.Paste.Error.{
  PasteError, empty, too_large, bad_password, not_found, crypto, db, Result, ok, err, ◌>>=◌, ◌>>◌,
  refuse, ok_or,
}
use klappstuhl_me.Paste.Access.{Actor, may_modify}
use klappstuhl_me.Paste.Validate.{
  normalize_title, normalize_language, check_for_secrets, resolve_expiry,
}
use klappstuhl_me.Paste.Store.{Db, exists, update, delete_paste}
use klappstuhl_me.Paste.Service.{PasteConfig, Env, later, EditPaste}
use klappstuhl_me.Paste.Service.Read.{load}
use klappstuhl_me.Paste.Service.Create.{max_bytes_for, recorded, given_password}

abbrev pub is_ownerless : Paste → Bool
is_ownerless p = not (is_some p.account_id)

abbrev pub actor_id : Actor → Option ℕ
actor_id actor = elim actor.account [ none ↦ none | some acc ↦ some acc.id ]

-- The body that replaces the stored one: an encrypted paste is opened with the password, and the
-- new body is sealed under the same key and the stored nonce.
unfoldable pub edited_body : External → Paste → EditPaste → Result Bytes
edited_body x paste change =
    if is_encrypted paste
    then (do
      password ← ok_or (given_password change.password) bad_password
      salt ← ok_or paste.enc_salt crypto
      nonce ← ok_or paste.enc_nonce crypto
      opened ← ok_or (open_and_keep_key x password salt nonce paste.content) bad_password
      ok_or (seal_with_key x opened.0 nonce (encode change.content)) crypto)
    else ok (encode change.content)

-- The columns that `UPDATE` sets.
pub record Changes : Type 0 where
  pub content : Bytes
  pub title : Option Text
  pub language : Option Text
  pub visibility : Visibility
  pub expires_at : Option ℕ

abbrev pub applied : ℕ → Changes → Paste → Paste
applied now c p = record p {
  content = c.content;
  title = c.title;
  language = c.language;
  visibility = c.visibility;
  size_bytes = length c.content;
  expires_at = c.expires_at;
  updated_at = some now;
}

module _ (x : External) (config : PasteConfig) (env : Env) where
  -- Everything before the transaction.
  unfoldable pub prepare_edit : Paste → Actor → EditPaste → Result Changes
  prepare_edit paste actor change = do
    refuse (not (may_modify x actor paste)) not_found
    let max_bytes = max_bytes_for config (is_ownerless paste)
    refuse (is_empty (trim change.content)) empty
    refuse (ltb max_bytes (byte_len change.content)) (too_large max_bytes)
    title ← normalize_title change.title
    let language = normalize_language change.language
    check_for_secrets x change.content (is_ownerless paste) change.confirm_secrets
    body ← edited_body x paste change
    ok (record {
      content = body;
      title = title;
      language = language;
      visibility = or_else change.visibility paste.visibility;
      expires_at =
          resolve_expiry env.now change.expires_in (is_ownerless paste) config.anonymous_ttl_days;
    })

  -- The body as it was, for the history.
  abbrev pub snapshot : Paste → ℕ → PasteRevision
  snapshot paste id = record {
    id = id;
    paste_id = paste.id;
    content = paste.content;
    title = paste.title;
    language = paste.language;
    created_at = env.now;
  }

  -- Snapshot and update are one transaction, which fails where the paste is gone. The `load` that
  -- follows may fail after it.
  unfoldable pub commit_edit : Paste → Changes → Db → Db
  commit_edit paste c d = record d {
    pastes = update paste.id (applied env.now c) d.pastes;
    revisions = snapshot paste d.next_revision ∷ d.revisions;
    next_revision = suc d.next_revision;
  }

  unfoldable pub store_edit : Paste → Actor → Option Text → Changes → Db → Db × Result Paste
  store_edit paste actor client_ip c d =
      if env.up 0 && exists paste.id d.pastes
      then (let d' =
            recorded x config env (codes "paste.edit") (actor_id actor) paste.id client_ip
              (commit_edit paste c d) in
          (d', ok_or (load (later 1 env) paste.id d') db))
      else (d, err db)

  abbrev and_store_edit : Paste → Actor → Option Text → Db → Result Changes → Db × Result Paste
  and_store_edit paste actor client_ip d (err e) = (d, err e)
  and_store_edit paste actor client_ip d (ok c) = store_edit paste actor client_ip c d

  unfoldable pub edit : Paste → Actor → Option Text → EditPaste → Db → Db × Result Paste
  edit paste actor client_ip change d =
      and_store_edit paste actor client_ip d (prepare_edit paste actor change)

  unfoldable pub delete : Paste → Actor → Option Text → Db → Db × Result (Unit {0})
  delete paste actor client_ip d =
      if not (may_modify x actor paste)
      then (d, err not_found)
      else if env.up 0
      then (
        recorded x config env (codes "paste.delete") (actor_id actor) paste.id client_ip
            (delete_paste paste.id d),
        ok tt,
      )
      else (d, err db)
