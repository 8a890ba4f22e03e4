-- ===== src/Deletion.antt =====
-- Deleting an account: `delete_account` of src/site/account/delete.rs with what the foreign keys of
-- sql/0.sql, 1.sql and 2.sql cascade to. Of the tables that cascade, user_discord_links, guild_api_key
-- and username_change are not modelled.
pub mod Guards
pub mod Cascade
pub mod Remains
use klappstuhl_me.Prelude.{
  ℕ, ◌+◌, Bool, true, false, not, ◌&&◌, Option, none, some, List, [], ◌∷◌, map, if◌then◌else◌, leb,
  ◌==◌, find, keep_if, length,
}
use klappstuhl_me.Text.{Text, Bytes, codes, text_eq, trim}
use klappstuhl_me.Account.{Account, is_admin, has_password, has_totp}
use klappstuhl_me.Scope.{Session}
use klappstuhl_me.Links.{ShortLink}
use klappstuhl_me.Paste.Row.{Paste, owner_is}
use klappstuhl_me.Paste.Store.{Db, AuditRecord, owned}
use klappstuhl_me.Paste.Service.Reaper.{delete_all}
use klappstuhl_me.Sessions.{has_session_id, invalidate_account_sessions}
use klappstuhl_me.Totp.{verify}
use klappstuhl_me.Site.{
  Site, Request, RecoveryCode, Store, AppState, audited, on_store, forget_account, failed,
  load_full_account,
}
use klappstuhl_me.Login.{secret_of}

pub record Image : Type 0 where
  pub id : Text
  pub uploader_id : Option ℕ
  pub size : ℕ

pub record DeleteAccountForm : Type 0 where
  pub username : Text
  pub password : Text
  pub code : Text
  pub delete_images : Bool

pub data Reason : Type 0 where
  api_key_session : Reason
  no_session : Reason
  last_admin : Reason
  username_mismatch : Reason
  account_missing : Reason
  no_password : Reason
  bad_password : Reason
  bad_totp : Reason
  sql_error : Reason

pub data Answer : Type 0 where
  refused : Reason → Answer
  deleted : Answer

abbrev pub has_uploader : ℕ → Image → Bool
has_uploader id i = owner_is i.uploader_id id

-- `ON DELETE SET NULL`.
abbrev pub orphan : ℕ → Image → Image
orphan id i = if has_uploader id i then record i { uploader_id = none } else i

abbrev forget_actor : ℕ → AuditRecord → AuditRecord
forget_actor id r = if owner_is r.actor_id id then record r { actor_id = none } else r

-- The rows of an account, by their ids.
abbrev pub owned_ids : ℕ → List Paste → List Text
owned_ids id ps = map (λ (p : Paste). p.id) (owned id ps)

abbrev without_actor : ℕ → Db → Db
without_actor id d = record d { audit = map (forget_actor id) d.audit }

module _ (site : Site) where
  pub record Estate : Type 0 where
    pub app : AppState site
    pub pastes : Db
    pub links : List ShortLink
    pub images : List Image

  abbrev cascade_store : ℕ → Store site → Store site
  cascade_store id s = record s {
    accounts = keep_if (λ (a : Account). not (a.id == id)) s.accounts;
    rows = keep_if (λ (r : Session). not (r.account_id == id)) s.rows;
  }

  -- `DELETE FROM account WHERE id = ?`, with what it cascades to.
  unfoldable pub delete_row : ℕ → Estate → Estate
  unfolding delete_all
  delete_row id e = record {
    app = record (on_store site (cascade_store id) e.app) {
      recovery = keep_if (λ (c : RecoveryCode). not (c.account_id == id)) e.app.recovery;
    };
    pastes = without_actor id (delete_all (owned_ids id e.pastes.pastes) e.pastes);
    links = keep_if (λ (l : ShortLink). not (l.account_id == id)) e.links;
    images = map (orphan id) e.images;
  }

  -- One transaction: the images, if that was asked, and the row.
  unfoldable pub purge_account : ℕ → Bool → Estate → Estate
  unfolding delete_row
  purge_account id delete_images e = delete_row id (
      if delete_images
      then record e { images = keep_if (λ i. not (has_uploader id i)) e.images }
      else e)

  abbrev pub on_app : (AppState site → AppState site) → Estate → Estate
  on_app f e = record e { app = f e.app }

  -- A refusal of the last two guards counts as a failed login.
  unfoldable pub refuse : Request → Reason → Bool → Estate → Estate × Answer
  refuse req reason lockout e = (
    on_app
        (λ st.
          if lockout
          then failed site (codes "auth.account.delete_fail") req st
          else audited site (codes "auth.account.delete_fail") st)
        e,
    refused reason,
  )

  -- A count that fails is 0.
  unfoldable pub is_last_admin : Bool → Account → List Account → Bool
  unfolding is_admin
  is_last_admin up account accounts =
      is_admin account && leb (if up then length (keep_if is_admin accounts) else 0) 1

  abbrev pub finish : Request → Account → Estate → Estate
  finish req account e =
      on_app
        (λ st. audited site (codes "auth.account.delete") (
          on_store site
            (invalidate_account_sessions site.sessions site.users site.max_token_age (req.up 5)
              account.id)
            (forget_account site account.id st)))
        e

  abbrev pub destroy : Request → Account → DeleteAccountForm → Estate → Estate × Answer
  destroy req account form e =
      if not (req.up 4)
      then refuse req sql_error false e
      else (finish req account (purge_account account.id form.delete_images e), deleted)

  abbrev pub code_matches : Request → Text → Option Bytes → Bool
  code_matches req code none = false
  code_matches req code (some secret) = verify site.totp secret req.now (trim code)

  -- Recovery codes are not asked.
  abbrev pub second_factor :
      Request → Account → DeleteAccountForm → Account → Estate → Estate × Answer
  second_factor req account form full e =
      if has_totp full && not (code_matches req form.code (secret_of site full))
      then refuse req bad_totp true e
      else destroy req account form e

  abbrev pub reauthenticate :
      Request → Account → DeleteAccountForm → Option Account → Estate → Estate × Answer
  reauthenticate req account form none e = refuse req account_missing false e
  reauthenticate req account form (some full) e =
      if not (has_password full)
      then refuse req no_password false e
      else if not (site.validate_password form.password full.password)
      then refuse req bad_password true e
      else second_factor req account form full e

  abbrev pub confirm : Request → Account → DeleteAccountForm → Estate → Estate × Answer
  confirm req account form e =
      if is_last_admin (req.up 1) account e.app.store.accounts
      then refuse req last_admin false e
      else if not (text_eq (trim form.username) account.name)
      then refuse req username_mismatch false e
      else reauthenticate req account form (load_full_account site (req.up 2) account.id e.app) e

  abbrev pub from_session :
      Request → Account → DeleteAccountForm → Option Session → Estate → Estate × Answer
  from_session req account form none e = refuse req no_session false e
  from_session req account form (some s) e =
      if s.api_key then refuse req api_key_session false e else confirm req account form e

  abbrev pub own_session : Bool → Text → ℕ → Store site → Option Session
  own_session up session id s =
      if up
      then find (λ (r : Session). has_session_id session r && (r.account_id == id)) s.rows
      else none

  -- The session is that of the cookie, and the account the one it resolved to. Statement 3 counts the
  -- images for the audit row.
  unfoldable pub delete_account :
      Request → Text → Account → DeleteAccountForm → Estate → Estate × Answer
  unfolding is_last_admin refuse purge_account text_eq trim
  delete_account req session account form e =
      from_session req account form (own_session (req.up 0) session account.id e.app.store) e
