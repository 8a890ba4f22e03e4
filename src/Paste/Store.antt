-- ===== src/Paste/Store.antt =====
-- The tables that the pastebin keeps (sql/1.sql: paste, paste_revision) with the statements that
-- src/site/paste/service.rs runs on them, and its audit trail. A primary key refuses a second row,
-- a reference a missing row; deleting a paste deletes its revisions and unlinks its forks.
pub mod WellFormed
use klappstuhl_me.Prelude.{
  ℕ, suc, ◌+◌, Bool, true, false, not, ◌&&◌, ◌||◌, Option, none, some, List, [], ◌∷◌, map,
  if◌then◌else◌, ltb, leb, ◌==◌, any, find, keep_if, length, take, is_some,
}
use klappstuhl_me.Text.{Text, Bytes, text_eq}
use klappstuhl_me.Paste.Row.{Visibility, public, Paste, PasteRevision, owner_is}

pub record AuditRecord : Type 0 where
  pub action : Text
  pub actor_id : Option ℕ
  pub target : Text
  pub ip : Option Text

pub record Db : Type 0 where
  pub pastes : List Paste
  pub revisions : List PasteRevision
  pub next_revision : ℕ
  pub audit : List AuditRecord

abbrev pub has_id : Text → Paste → Bool
has_id id p = text_eq p.id id

abbrev pub exists : Text → List Paste → Bool
exists id ps = any (has_id id) ps

-- `expires_at IS NULL OR datetime(expires_at) > datetime('now')`.
abbrev pub is_live : ℕ → Paste → Bool
is_live now p = elim p.expires_at [ none ↦ true | some e ↦ ltb now e ]

-- `SELECT * FROM paste WHERE id = ?1 AND (not expired)`.
unfoldable pub select : Text → ℕ → List Paste → Option Paste
unfolding text_eq
select id now ps = find (λ p. has_id id p && is_live now p) ps

abbrev reference_holds : Option Text → List Paste → Bool
reference_holds none ps = true
reference_holds (some id) ps = exists id ps

-- `INSERT INTO paste`: false on a constraint.
unfoldable pub may_insert : Paste → List Paste → Bool
may_insert p ps = not (exists p.id ps) && reference_holds p.fork_of ps

abbrev pub unlink : Text → Paste → Paste
unlink id p = elim p.fork_of [
  | none ↦ p
  | some source ↦ if text_eq source id then record p { fork_of = none } else p
]

abbrev pub other_paste : Text → PasteRevision → Bool
other_paste id r = not (text_eq r.paste_id id)

-- `DELETE FROM paste WHERE id = ?1`, with what it cascades to.
unfoldable pub delete_paste : Text → Db → Db
delete_paste id d = record d {
  pastes = map (unlink id) (keep_if (λ p. not (has_id id p)) d.pastes);
  revisions = keep_if (other_paste id) d.revisions;
}

-- `UPDATE paste SET … WHERE id = ?7`.
unfoldable pub update : Text → (Paste → Paste) → List Paste → List Paste
update id f ps = map (λ p. if has_id id p then f p else p) ps

-- `ORDER BY created_at DESC`.
unfoldable pub insert_newest : Paste → List Paste → List Paste
insert_newest p [] = p ∷ []
insert_newest p (q ∷ qs) =
    let rest = insert_newest p qs in if leb q.created_at p.created_at then p ∷ q ∷ qs else q ∷ rest

unfoldable pub newest_first : List Paste → List Paste
unfolding insert_newest
newest_first [] = []
newest_first (p ∷ ps) = insert_newest p (newest_first ps)

insert_revision : PasteRevision → List PasteRevision → List PasteRevision
insert_revision r [] = r ∷ []
insert_revision r (s ∷ ss) =
    let rest = insert_revision r ss in
    if ltb s.created_at r.created_at || ((s.created_at == r.created_at) && leb s.id r.id)
    then r ∷ s ∷ ss
    else s ∷ rest

-- `ORDER BY created_at DESC, id DESC`.
unfoldable pub revisions_newest_first : List PasteRevision → List PasteRevision
unfolding insert_revision
revisions_newest_first [] = []
revisions_newest_first (r ∷ rs) = insert_revision r (revisions_newest_first rs)

-- `COUNT(*)` and `SUM(size_bytes)` of an account.
abbrev pub owned : ℕ → List Paste → List Paste
owned account_id ps = keep_if (λ p. owner_is p.account_id account_id) ps

abbrev pub total_bytes : List Paste → ℕ
total_bytes [] = 0
total_bytes (p ∷ ps) = p.size_bytes + total_bytes ps
