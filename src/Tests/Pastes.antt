-- ===== src/Tests/Pastes.antt =====
-- Examples on the operations of src/site/paste/service.rs.
use klappstuhl_me.Prelude.{◌≡◌, refl, true, false, none, some, ◌∷◌, ◌⊎◌, All}
use klappstuhl_me.Text.{Text, Bytes, codes, text_eq, encode}
use klappstuhl_me.Paste.Row.{Paste, is_encrypted}
use klappstuhl_me.Paste.Crypto.{open_and_keep_key, seal_with_key}
use klappstuhl_me.Paste.Error.{PasteError, not_found, ok, err}
use klappstuhl_me.Paste.Access.{account, anonymous, Actor, may_modify}
use klappstuhl_me.Paste.Store.{exists, select}
use klappstuhl_me.Paste.Store.WellFormed.{WellFormed}
use klappstuhl_me.Paste.Service.{Env}
use klappstuhl_me.Paste.Service.Create.{create}
use klappstuhl_me.Paste.Service.Create.Accepted.{Stores, create_cases}
use klappstuhl_me.Paste.Service.Modify.{Changes, edit, edited_body}
use klappstuhl_me.Paste.Service.Modify.Edited.{Writes, edit_cases}
use klappstuhl_me.Paste.Service.Modify.Sealing.{Resealed, edit-Resealed}
use klappstuhl_me.Paste.Service.Read.{load, load_for, list_for_account, list_public, burn}
use klappstuhl_me.Paste.Service.Read.Laws.{IsVisible, expired_invisible, burn_once, load_for_cases}
use klappstuhl_me.Paste.Service.Reaper.{reap}
use klappstuhl_me.Paste.Service.Runs.{creates, edits, reaps, rests, steps, Reaches-WellFormed}
use klappstuhl_me.Tests.{
  toy, toy-Opens, alice, bob, config, env, hello, change, sealed_paste, tables, tables-WellFormed,
  sample_id,
}

abbrev owner : Actor
owner = record { account = some alice; edit_token = none }

abbrev stranger : Actor
stranger = record { account = some bob; edit_token = none }

abbrev other_env : Env
other_env = record env { fresh_id = codes "qq" }

create_cases_example :
    ((e : PasteError) × (create toy config other_env anonymous none hello tables ≡ (tables, err e)))
    ⊎ ((row : Paste) × Stores toy config other_env anonymous none hello tables row
          (create toy config other_env anonymous none hello tables))
create_cases_example = create_cases toy config other_env anonymous none hello tables

edit_cases_example :
    ((e : PasteError) × (edit toy config env sealed_paste owner none change tables
        ≡ (tables, err e)))
    ⊎ ((c : Changes) × Writes toy config env sealed_paste owner none change tables c
          (edit toy config env sealed_paste owner none change tables))
edit_cases_example = edit_cases toy config env sealed_paste owner none change tables

expired_invisible_example :
    ((p : Paste) → load env sample_id tables ≡ some p → IsVisible env p)
    × ((p : Paste) → (burn env sample_id tables).1 ≡ some p → IsVisible env p)
    × All (IsVisible env) (list_for_account env 1 tables)
    × All (IsVisible env) (list_public env 1 5 tables)
expired_invisible_example = expired_invisible env sample_id 1 5 tables

burn_once_example :
    (load env sample_id (burn env sample_id tables).0 ≡ none)
    × (burn env sample_id (burn env sample_id tables).0 ≡ ((burn env sample_id tables).0, none))
    × ((j : Text)
        → text_eq j sample_id ≡ false
        → exists j (burn env sample_id tables).0.pastes ≡ exists j tables.pastes)
unfolding burn load select
burn_once_example =
    burn_once env env sample_id tables (burn env sample_id tables).0 sealed_paste refl

load_for_cases_example :
    ((p : Paste) × (load env sample_id tables ≡ some p)
      × (may_modify toy owner p ≡ true)
      × (load_for toy env sample_id owner tables ≡ ok p))
    ⊎ (((p : Paste) → load env sample_id tables ≡ some p → may_modify toy owner p ≡ false)
        × (load_for toy env sample_id owner tables ≡ err not_found))
load_for_cases_example = load_for_cases toy env sample_id owner tables

abbrev rewritten_paste : Paste
rewritten_paste = record sealed_paste {
  content = 1 ∷ codes "bye";
  size_bytes = 4;
  updated_at = some 1000;
  expires_at = none;
}

edit-Resealed_example :
    Resealed toy sealed_paste change rewritten_paste
    × (select sample_id 1000 (edit toy config env sealed_paste owner none change tables).0.pastes
        ≡ some rewritten_paste)
unfolding edit select is_encrypted klappstuhl_me.Paste.Service.Modify.prepare_edit may_modify
    klappstuhl_me.Paste.Row.owned_by klappstuhl_me.Text.trim klappstuhl_me.Text.byte_len
    klappstuhl_me.Paste.Validate.normalize_title klappstuhl_me.Paste.Validate.check_for_secrets
    edited_body open_and_keep_key seal_with_key klappstuhl_me.Paste.Service.Modify.store_edit load
    klappstuhl_me.Paste.Service.Modify.commit_edit klappstuhl_me.Paste.Store.update
    klappstuhl_me.Paste.Validate.resolve_expiry klappstuhl_me.Paste.Validate.normalize_language
edit-Resealed_example =
    edit-Resealed toy toy-Opens config env sealed_paste owner none change tables
      (edit toy config env sealed_paste owner none change tables).0 rewritten_paste
      tables-WellFormed refl refl refl

-- An edit of the sealed paste, a creation and a round of the reaper.
Reaches-WellFormed_example : WellFormed (
    reap config env
      (create toy config other_env
        (account alice)
        none
        hello
        (edit toy config env sealed_paste owner none change tables).0).0)
unfolding select
Reaches-WellFormed_example =
    Reaches-WellFormed toy config
      (steps (edits env sealed_paste owner none change refl)
        (steps (creates other_env (account alice) none hello) (steps (reaps env) rests)))
      tables-WellFormed
