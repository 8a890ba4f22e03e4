-- ===== src/Paste/Service/Read.antt =====
-- The reads of src/site/paste/service.rs, the view counter and burn-after-read.
pub mod Laws
use klappstuhl_me.Prelude.{
  ℕ, ◌+◌, Bool, true, false, not, ◌&&◌, Option, none, some, List, [], ◌∷◌, if◌then◌else◌, keep_if,
  take,
}
use klappstuhl_me.Text.{Text, text_eq}
use klappstuhl_me.Paste.Row.{Visibility, public, Paste, PasteRevision, owner_is}
use klappstuhl_me.Paste.External.{External}
use klappstuhl_me.Paste.Error.{PasteError, not_found, Result, ok, err, ◌>>=◌, ◌>>◌, refuse, ok_or}
use klappstuhl_me.Paste.Access.{Actor, may_modify}
use klappstuhl_me.Paste.Store.{
  Db, is_live, select, delete_paste, update, newest_first, revisions_newest_first, owned,
}
use klappstuhl_me.Paste.Service.{Env}

unfoldable pub load : Env → Text → Db → Option Paste
load env id d = if env.up 0 then select id env.now d.pastes else none

unfoldable pub load_for : External → Env → Text → Actor → Db → Result Paste
load_for x env id actor d = do
  paste ← ok_or (load env id d) not_found
  refuse (not (may_modify x actor paste)) not_found
  ok paste

unfoldable pub list_for_account : Env → ℕ → Db → List Paste
list_for_account env account_id d =
    if env.up 0 then newest_first (keep_if (is_live env.now) (owned account_id d.pastes)) else []

abbrev pub is_public : Paste → Bool
is_public p = elim p.visibility [ public ↦ true | _ ↦ false ]

unfoldable pub list_public : Env → ℕ → ℕ → Db → List Paste
list_public env account_id limit d =
    if env.up 0
    then take limit
        (newest_first (keep_if (λ p. is_public p && is_live env.now p) (owned account_id d.pastes)))
    else []

unfoldable pub revisions : Env → Text → Db → List PasteRevision
revisions env id d =
    if env.up 0
    then revisions_newest_first (keep_if (λ (r : PasteRevision). text_eq r.paste_id id) d.revisions)
    else []

unfoldable pub count_view : Env → Text → Db → Db
count_view env id d =
    if env.up 0
    then record d { pastes = update id (λ p. record p { views = p.views + 1 }) d.pastes }
    else d

-- The `DELETE` runs on the row that the same condition finds.
abbrev burned : Text → Db → Option Paste → Db × Option Paste
burned id d none = (d, none)
burned id d (some p) = (delete_paste id d, some p)

-- `DELETE … RETURNING *`: the row that it deleted, if it deleted one.
unfoldable pub burn : Env → Text → Db → Db × Option Paste
burn env id d = burned id d (load env id d)
