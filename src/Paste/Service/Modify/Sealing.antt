-- ===== src/Paste/Service/Modify/Sealing.antt =====
-- An edit of an encrypted paste: the key and the nonce under which the new body is sealed, and what
-- the stored row is then.
use klappstuhl_me.Prelude.{
  ℕ, ◌≡◌, refl, sym, ap, ◌∙◌, Bool, true, false, if◌then◌else◌, Option, none, some, List, [], ◌∷◌,
  All, Bool-cases, Option-cases, inl, inr, some_inj,
}
use klappstuhl_me.Text.{Text, Bytes, text_eq, encode}
use klappstuhl_me.Paste.Row.{Paste, is_encrypted}
use klappstuhl_me.Paste.External.{External, Opens}
use klappstuhl_me.Paste.Crypto.{open_and_keep_key, open_with_key, derive_key, seal_with_key}
use klappstuhl_me.Paste.Error.{Result, ok, err, db, >>=-ok, ok_or, ok_or-eq-ok}
use klappstuhl_me.Paste.Access.{Actor}
use klappstuhl_me.Paste.Store.{Db, select, update, has_id, is_live}
use klappstuhl_me.Paste.Store.WellFormed.{WellFormed, select_only}
use klappstuhl_me.Paste.Service.{PasteConfig, Env, EditPaste}
use klappstuhl_me.Paste.Service.Create.{given_password}
use klappstuhl_me.Paste.Service.Modify.{Changes, edited_body, edit, commit_edit, applied}
use klappstuhl_me.Paste.Service.Modify.Edited.{edit_cases}

-- A body written to an encrypted paste needs the password that opens the old one, and is sealed
-- under the key and the nonce of the old one.
edited_body-encrypted :
    (x : External) (paste : Paste) (change : EditPaste) (body : Bytes)
    → is_encrypted paste ≡ true
    → edited_body x paste change ≡ ok body
    → (password : Text) × (salt : Bytes) × (nonce : Bytes) × (key : Bytes) × (old : Bytes)
      × (given_password change.password ≡ some password)
      × (paste.enc_salt ≡ some salt)
      × (paste.enc_nonce ≡ some nonce)
      × (open_and_keep_key x password salt nonce paste.content ≡ some (key, old))
      × (seal_with_key x key nonce (encode change.content) ≡ some body)
unfolding edited_body
edited_body-encrypted x paste change body encrypted h =
    let (password, h₁, k₁) = >>=-ok (ok_or _ _) _ (rw encrypted at h) in
    let (salt, h₂, k₂) = >>=-ok (ok_or _ _) _ k₁ in
    let (nonce, h₃, k₃) = >>=-ok (ok_or _ _) _ k₂ in
    let ((key, old), h₄, k₄) = >>=-ok (ok_or _ _) _ k₃ in
    (
      password,
      salt,
      nonce,
      key,
      old,
      ok_or-eq-ok _ _ h₁,
      ok_or-eq-ok _ _ h₂,
      ok_or-eq-ok _ _ h₃,
      ok_or-eq-ok _ _ h₄,
      ok_or-eq-ok _ _ k₄,
    )

-- The row that an update of one id leaves to a read of it, where only `paste` has the id.
select-update :
    (id : Text) (now : ℕ) (f : Paste → Paste) (paste p : Paste) (ps : List Paste)
    → ((q : Paste) → (f q).id ≡ q.id)
    → All (λ q. has_id id q ≡ true → q ≡ paste) ps
    → select id now (update id f ps) ≡ some p
    → p ≡ f paste
unfolding select update
select-update id now f paste p [] same only h = cc
select-update id now f paste p (q ∷ ps) same only h = elim (Bool-cases (has_id id q)) [
  | inr miss ↦ select-update id now f paste p ps same only.1 (rw (miss, miss) at h)
  | inl hit ↦
      let kept : has_id id (f q) ≡ true = ap (λ i. text_eq i id) (same q) ∙ hit in
      elim (Bool-cases (is_live now (f q))) [
        | inl live ↦ sym (some_inj (rw (hit, kept, live) at h)) ∙ ap f (only.0 hit)
        | inr dead ↦ select-update id now f paste p ps same only.1 (rw (hit, kept, dead) at h)
      ]
]

answered_ok :
    (p : Paste) (up : Bool) (o : Option Paste)
    → ok p ≡ (if up then ok_or o db else err db)
    → o ≡ some p
answered_ok p false o h = cc
answered_ok p true none h = cc
answered_ok p true (some q) h = cc

module _ (x : External) where
  -- What an edit of an encrypted paste leaves: the salt and the nonce as they were, under the
  -- password of the old body.
  pub record Resealed (paste : Paste) (change : EditPaste) (p : Paste) : Type 0 where
    pub password : Text
    pub salt : Bytes
    pub nonce : Bytes
    pub key : Bytes
    pub old : Bytes
    pub given : given_password change.password ≡ some password
    pub salted : (paste.enc_salt ≡ some salt) × (p.enc_salt ≡ some salt)
    pub nonced : (paste.enc_nonce ≡ some nonce) × (p.enc_nonce ≡ some nonce)
    pub opened : open_and_keep_key x password salt nonce paste.content ≡ some (key, old)
    pub reopens :
        open_and_keep_key x password salt nonce p.content ≡ some (key, encode change.content)

  module _ (opens : Opens x) where
    reopened :
        (password : Text) (salt nonce key old content plain body : Bytes)
        → open_and_keep_key x password salt nonce content ≡ some (key, old)
        → seal_with_key x key nonce plain ≡ some body
        → open_and_keep_key x password salt nonce body ≡ some (key, plain)
    unfolding open_and_keep_key seal_with_key open_with_key
    reopened password salt nonce key old content plain body h sealed =
        elim (Option-cases (derive_key x password salt)) [
          | inl failed ↦ cc (rw failed at h)
          | inr (k, derived) ↦ elim (Option-cases (x.decrypt k nonce content)) [
            | inl shut ↦ cc (rw (derived, shut) at h)
            | inr (b, open_) ↦
                let same : (k, b) ≡ (key, old) = some_inj (rw (derived, open_) at h) in
                let here : derive_key x password salt ≡ some key =
                  derived ∙ ap (λ (r : Bytes × Bytes). some r.0) same in
                rw (here, opens key nonce plain body sealed) refl
          ]
        ]

    module _ (config : PasteConfig) (env : Env) where
      resealed :
          (paste : Paste) (change : EditPaste) (c : Changes) (p : Paste)
          → p ≡ applied env.now c paste
          → edited_body x paste change ≡ ok c.content
          → is_encrypted paste ≡ true
          → Resealed paste change p
      resealed paste change c p same sealed encrypted =
          let (password, salt, nonce, key, old, given, salted, nonced, opened, closed) =
            edited_body-encrypted x paste change c.content encrypted sealed in
          record {
            password = password;
            salt = salt;
            nonce = nonce;
            key = key;
            old = old;
            given = given;
            salted = (salted, ap (λ (q : Paste). q.enc_salt) same ∙ salted);
            nonced = (nonced, ap (λ (q : Paste). q.enc_nonce) same ∙ nonced);
            opened = opened;
            reopens =
                ap (λ (q : Paste). open_and_keep_key x password salt nonce q.content) same
                ∙ reopened password salt nonce key old paste.content (encode change.content)
                    c.content opened closed;
          }

      -- With a cipher that opens what it sealed and well-formed tables, an edit of an encrypted
      -- paste that a read found, where it answers with the paste: it was given the password under
      -- which the old body opens; the paste has the salt and the nonce it had, and under that
      -- password it opens to the new body; and a read finds it so.
      pub edit-Resealed :
          (paste : Paste) (actor : Actor) (client_ip : Option Text) (change : EditPaste) (d d' : Db)
          (p : Paste)
          → WellFormed d
          → select paste.id env.now d.pastes ≡ some paste
          → is_encrypted paste ≡ true
          → edit x config env paste actor client_ip change d ≡ (d', ok p)
          → Resealed paste change p × (select paste.id env.now d'.pastes ≡ some p)
      unfolding commit_edit
      edit-Resealed paste actor client_ip change d d' p w found encrypted h =
          elim (edit_cases x config env paste actor client_ip change d) [
            | inl (e, refused) ↦ cc (ap (λ (r : Db × Result Paste). r.1) (sym refused ∙ h))
            | inr (c, (edited, there, stored, answer)) ↦
                let left : d' ≡ _ = ap (λ (r : Db × Result Paste). r.0) (sym h) ∙ stored in
                let read : select paste.id env.now d'.pastes ≡ some p =
                  answered_ok p (env.up 1) (select paste.id env.now d'.pastes) (rw h at answer) in
                let same : p ≡ applied env.now c paste =
                  select-update paste.id env.now (applied env.now c) paste p d.pastes (λ q. refl)
                    (select_only paste.id env.now d.pastes paste w.unique found)
                    (ap (λ (e : Db). select paste.id env.now e.pastes) (sym left) ∙ read) in
                (resealed paste change c p same edited.sealed encrypted, read)
          ]
