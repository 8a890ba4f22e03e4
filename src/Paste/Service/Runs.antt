-- ===== src/Paste/Service/Runs.antt =====
-- Sequences of operations on the pastes, each with its own surroundings, and what they keep.
use klappstuhl_me.Prelude.{◌≡◌, Option, some}
use klappstuhl_me.Text.{Text}
use klappstuhl_me.Paste.Row.{Paste}
use klappstuhl_me.Paste.External.{External}
use klappstuhl_me.Paste.Access.{Creator, Actor}
use klappstuhl_me.Paste.Store.{Db, select}
use klappstuhl_me.Paste.Store.WellFormed.{WellFormed}
use klappstuhl_me.Paste.Service.{PasteConfig, Env, NewPaste, EditPaste}
use klappstuhl_me.Paste.Service.Create.{create, fork}
use klappstuhl_me.Paste.Service.Modify.{edit, delete}
use klappstuhl_me.Paste.Service.Read.{burn, count_view}
use klappstuhl_me.Paste.Service.Reaper.{reap}
use klappstuhl_me.Paste.Service.Reaper.Laws.{reap-WellFormed}
use klappstuhl_me.Paste.Service.Invariant.{
  create-WellFormed, edit-WellFormed, delete-WellFormed, burn-WellFormed, count_view-WellFormed,
}

module _ (x : External) (config : PasteConfig) where
  -- One operation; an edit is of a paste that a read found, as the handlers do it.
  pub data Step : Db → Db → Type 0 where
    creates :
        {d : Db} (env : Env) (creator : Creator) (ip : Option Text) (new : NewPaste)
        → Step d (create x config env creator ip new d).0
    forks :
        {d : Db} (env : Env) (source : Paste) (plaintext : Text) (creator : Creator)
        (ip : Option Text)
        → Step d (fork x config env source plaintext creator ip d).0
    edits :
        {d : Db} (env : Env) (paste : Paste) (actor : Actor) (ip : Option Text) (change : EditPaste)
        → select paste.id env.now d.pastes ≡ some paste
        → Step d (edit x config env paste actor ip change d).0
    deletes :
        {d : Db} (env : Env) (paste : Paste) (actor : Actor) (ip : Option Text)
        → Step d (delete x config env paste actor ip d).0
    reveals : {d : Db} (env : Env) (id : Text) → Step d (burn env id d).0
    views : {d : Db} (env : Env) (id : Text) → Step d (count_view env id d)
    reaps : {d : Db} (env : Env) → Step d (reap config env d)

  pub data Reaches : Db → Db → Type 0 where
    rests : {d : Db} → Reaches d d
    steps : {d e f : Db} → Step d e → Reaches e f → Reaches d f

  Step-WellFormed : {d e : Db} → Step d e → WellFormed d → WellFormed e
  unfolding fork
  Step-WellFormed {d = d} (creates env creator ip new) w =
      create-WellFormed x config env creator ip new d w
  Step-WellFormed {d = d} (forks env source plaintext creator ip) w =
      create-WellFormed x config env creator ip _ d w
  Step-WellFormed {d = d} (edits env paste actor ip change found) w =
      edit-WellFormed x config env paste actor ip change d found w
  Step-WellFormed {d = d} (deletes env paste actor ip) w =
      delete-WellFormed x config env paste actor ip d w
  Step-WellFormed {d = d} (reveals env id) w = burn-WellFormed env id d w
  Step-WellFormed {d = d} (views env id) w = count_view-WellFormed env id d w
  Step-WellFormed {d = d} (reaps env) w = reap-WellFormed config env d w

  -- However creations, forks, edits of pastes that a read found, deletions, reveals, views and rounds
  -- of the reaper follow each other, in whatever surroundings, refused or not, well-formed tables stay
  -- well formed.
  pub Reaches-WellFormed : {d e : Db} → Reaches d e → WellFormed d → WellFormed e
  Reaches-WellFormed rests w = w
  Reaches-WellFormed (steps s r) w = Reaches-WellFormed r (Step-WellFormed s w)
