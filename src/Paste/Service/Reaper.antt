-- ===== src/Paste/Service/Reaper.antt =====
-- One round of `spawn_paste_reaper` of src/site/paste/service.rs.
pub mod Laws
pub mod Expiry
use klappstuhl_me.Prelude.{
  ℕ, ◌+◌, ◌*◌, Bool, true, false, not, ◌&&◌, ◌||◌, Option, none, some, List, [], ◌∷◌, map,
  if◌then◌else◌, ltb, leb, ◌==◌, any, keep_if, take,
}
use klappstuhl_me.Prelude.Int.{at_least_one}
use klappstuhl_me.Text.{Text, text_eq}
use klappstuhl_me.Paste.Row.{Paste, PasteRevision}
use klappstuhl_me.Paste.Validate.{day_secs}
use klappstuhl_me.Paste.Store.{Db, is_live, delete_paste, revisions_newest_first}
use klappstuhl_me.Paste.Service.{PasteConfig, Env}

abbrev revision_cap : ℕ
revision_cap = 20

unfoldable pub expired_ids : ℕ → List Paste → List Text
expired_ids now [] = []
expired_ids now (p ∷ ps) =
    let rest = expired_ids now ps in if is_live now p then rest else p.id ∷ rest

unfoldable pub delete_all : List Text → Db → Db
delete_all [] d = d
delete_all (id ∷ ids) d = delete_all ids (delete_paste id d)

-- `DELETE FROM paste` of the expired rows, with what it cascades to.
unfoldable pub reap_expired : ℕ → Db → Db
unfolding expired_ids delete_all
reap_expired now d = delete_all (expired_ids now d.pastes) d

abbrev revisions_of : Text → List PasteRevision → List PasteRevision
revisions_of id rs = keep_if (λ (r : PasteRevision). text_eq r.paste_id id) rs

-- A revision stays if it is among the newest of its paste.
unfoldable pub keeps_revision : List PasteRevision → PasteRevision → Bool
keeps_revision rs r =
    any (λ (s : PasteRevision). s.id == r.id)
      (take revision_cap (revisions_newest_first (revisions_of r.paste_id rs)))

unfoldable pub prune_revisions : Db → Db
prune_revisions d = record d { revisions = keep_if (keeps_revision d.revisions) d.revisions }

-- `UPDATE paste SET creator_ip = NULL` for rows older than the anonymous window.
unfoldable pub forget_ips : PasteConfig → ℕ → Db → Db
forget_ips config now d = record d {
  pastes =
      map
        (λ p.
          if leb (p.created_at + at_least_one config.anonymous_ttl_days * day_secs) now
          then record p { creator_ip = none }
          else p)
        d.pastes;
}

abbrev pub if_answered : Bool → (Db → Db) → Db → Db
if_answered up f d = if up then f d else d

-- The three statements of a round; the failure of one is logged, and the next one runs.
unfoldable pub reap : PasteConfig → Env → Db → Db
reap config env d =
    if_answered (env.up 2) (forget_ips config env.now)
      (if_answered (env.up 1) prune_revisions (if_answered (env.up 0) (reap_expired env.now) d))
