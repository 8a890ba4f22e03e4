-- ===== src/Paste/Service/Modify/Edited.antt =====
-- What `edit` has checked when it accepts a change, and what it then writes.
use klappstuhl_me.Prelude.{
  ◌≡◌, refl, sym, ap, ◌∙◌, true, false, ◌&&◌, Option, arith, ltb, Bool-cases, true_of_not, inl, inr,
  ◌⊎◌, or_else, if◌then◌else◌,
}
use klappstuhl_me.Text.{Text, codes, trim, is_empty, byte_len}
use klappstuhl_me.Paste.Row.{Paste}
use klappstuhl_me.Paste.External.{External}
use klappstuhl_me.Paste.Error.{
  PasteError, not_found, db, Result, ok, err, >>=-ok, >>-ok, refuse, refuse-eq-ok, ok_inj, ok_or,
}
use klappstuhl_me.Paste.Access.{Actor, may_modify}
use klappstuhl_me.Paste.Validate.{
  normalize_title, normalize_language, check_for_secrets, resolve_expiry,
}
use klappstuhl_me.Paste.Store.{Db, select, exists}
use klappstuhl_me.Paste.Service.{PasteConfig, Env, EditPaste}
use klappstuhl_me.Paste.Service.Create.{max_bytes_for, recorded}
use klappstuhl_me.Paste.Service.Read.{load}
use klappstuhl_me.Paste.Service.Modify.{
  is_ownerless, edited_body, actor_id, Changes, prepare_edit, commit_edit, store_edit, edit, delete,
}

module _ (x : External) (config : PasteConfig) (env : Env) where
  pub record Edited (paste : Paste) (actor : Actor) (change : EditPaste) (c : Changes)
      : Type 0 where
    pub allowed : may_modify x actor paste ≡ true
    pub nonempty : is_empty (trim change.content) ≡ false
    pub fits : ltb (max_bytes_for config (is_ownerless paste)) (byte_len change.content) ≡ false
    pub titled : normalize_title change.title ≡ ok c.title
    pub clean :
        check_for_secrets x change.content (is_ownerless paste) change.confirm_secrets ≡ ok tt
    pub sealed : edited_body x paste change ≡ ok c.content
    pub language : c.language ≡ normalize_language change.language
    pub visibility : c.visibility ≡ or_else change.visibility paste.visibility
    pub expiring :
        c.expires_at
        ≡ resolve_expiry env.now change.expires_in (is_ownerless paste) config.anonymous_ttl_days

  pub prepare_edit-Edited :
      (paste : Paste) (actor : Actor) (change : EditPaste) (c : Changes)
      → prepare_edit x config env paste actor change ≡ ok c
      → Edited paste actor change c
  unfolding prepare_edit
  prepare_edit-Edited paste actor change c h =
      let (h₁, k₁) = >>-ok (refuse _ _) _ h in
      let (h₂, k₂) = >>-ok (refuse _ _) _ k₁ in
      let (h₃, k₃) = >>-ok (refuse _ _) _ k₂ in
      let (title, h₄, k₄) = >>=-ok _ _ k₃ in
      let (h₅, k₅) = >>-ok _ _ k₄ in
      let (body, h₆, k₆) = >>=-ok _ _ k₅ in
      let same = ok_inj k₆ in
      record {
        allowed = true_of_not _ (refuse-eq-ok _ _ h₁);
        nonempty = refuse-eq-ok _ _ h₂;
        fits = refuse-eq-ok _ _ h₃;
        titled = h₄ ∙ ap (λ (c : Changes). ok c.title) same;
        clean = h₅;
        sealed = h₆ ∙ ap (λ (c : Changes). ok c.content) same;
        language = ap (λ (c : Changes). c.language) (sym same);
        visibility = ap (λ (c : Changes). c.visibility) (sym same);
        expiring = ap (λ (c : Changes). c.expires_at) (sym same);
      }

  module _ (paste : Paste) (actor : Actor) (client_ip : Option Text) (change : EditPaste)
      (d : Db) where
    abbrev pub Writes : Changes → Db × Result Paste → Type 0
    Writes c r =
        Edited paste actor change c
        × (exists paste.id d.pastes ≡ true)
        × (r.0
            ≡ recorded x config env (codes "paste.edit") (actor_id actor) paste.id client_ip
                (commit_edit x config env paste c d))
        × (r.1 ≡ (if env.up 1 then ok_or (select paste.id env.now r.0.pastes) db else err db))

    store_edit_cases :
        (c : Changes)
        → Edited paste actor change c
        → (store_edit x config env paste actor client_ip c d ≡ (d, err db))
          ⊎ Writes c (store_edit x config env paste actor client_ip c d)
    unfolding store_edit load
    store_edit_cases c e = elim (Bool-cases (env.up 0 && exists paste.id d.pastes)) [
      | inr refused ↦ inl (rw refused)
      | inl stored ↦ elim (Bool-cases (env.up 1)) [
        | inl read ↦ inr (rw (stored, read) (e, ground (arith, stored), refl, refl))
        | inr unread ↦ inr (rw (stored, unread) (e, ground (arith, stored), refl, refl))
      ]
    ]

    -- An edit answers with an error and changes nothing; or it was allowed and passed every check,
    -- and wrote the change together with the snapshot of the previous body and an audit entry. It
    -- then answers with the paste as a read finds it, or with a database error where that read is
    -- not answered or finds nothing.
    pub edit_cases :
        ((e : PasteError) × (edit x config env paste actor client_ip change d ≡ (d, err e)))
        ⊎ ((c : Changes) × Writes c (edit x config env paste actor client_ip change d))
    unfolding edit
    edit_cases = prepared (prepare_edit x config env paste actor change) refl
      where
        prepared :
            (r : Result Changes)
            → prepare_edit x config env paste actor change ≡ r
            → ((e : PasteError) × (edit x config env paste actor client_ip change d ≡ (d, err e)))
              ⊎ ((c : Changes) × Writes c (edit x config env paste actor client_ip change d))
        prepared (err e) h = inl (e, rw h)
        prepared (ok c) h = elim (store_edit_cases c (prepare_edit-Edited paste actor change c h)) [
          | inl refused ↦ inl (db, rw h refused)
          | inr stored ↦ inr (c, rw h stored)
        ]

    -- An edit by who may not modify the paste is told that it is not found, and nothing changes.
    pub edit_unauthorised :
        may_modify x actor paste ≡ false
        → edit x config env paste actor client_ip change d ≡ (d, err not_found)
    unfolding edit prepare_edit
    edit_unauthorised h = rw h

  -- A deletion by who may not modify the paste is told that it is not found, and nothing changes.
  pub delete_unauthorised :
      (paste : Paste) (actor : Actor) (client_ip : Option Text) (d : Db)
      → may_modify x actor paste ≡ false
      → delete x config env paste actor client_ip d ≡ (d, err not_found)
  unfolding delete
  delete_unauthorised paste actor client_ip d h = rw h
