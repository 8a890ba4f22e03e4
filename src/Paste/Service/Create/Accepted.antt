-- ===== src/Paste/Service/Create/Accepted.antt =====
-- What `create` has checked when it accepts a paste, and what it then stores.
use klappstuhl_me.Prelude.{
  ℕ, ◌<◌, ◌≡◌, refl, sym, ap, true, false, not, ◌&&◌, Option, none, some, List, ◌∷◌, if◌then◌else◌,
  ltb, arith, lt→ltb, Bool-cases, inl, inr, ◌⊎◌,
}
use klappstuhl_me.Text.{Text, codes, trim, is_empty, byte_len}
use klappstuhl_me.Text.Equality.{text_eq_refl}
use klappstuhl_me.Paste.Row.{Paste}
use klappstuhl_me.Paste.External.{External}
use klappstuhl_me.Paste.Error.{
  PasteError, db, Result, ok, err, >>=-ok, >>-ok, refuse, refuse-eq-ok, ok_inj,
}
use klappstuhl_me.Paste.Access.{Creator, account_id, is_anonymous}
use klappstuhl_me.Paste.Validate.{
  normalize_title, normalize_language, check_for_secrets, resolve_expiry,
}
use klappstuhl_me.Paste.Validate.Laws.{resolve_expiry_future}
use klappstuhl_me.Paste.Store.{Db, select, may_insert, is_live}
use klappstuhl_me.Paste.Service.{PasteConfig, Env, NewPaste, Created}
use klappstuhl_me.Paste.Service.Read.{load}
use klappstuhl_me.Paste.Service.Create.{
  Body, creator_quota, seal_body, max_bytes_for, new_row, prepare, recorded, store, create,
}

module _ (x : External) (config : PasteConfig) (env : Env) where
  pub record Accepted (creator : Creator) (client_ip : Option Text) (new : NewPaste) (d : Db)
      (row : Paste) : Type 0 where
    pub title : Option Text
    pub body : Body
    pub allowed : (is_anonymous creator && not config.anonymous) ≡ false
    pub nonempty : is_empty (trim new.content) ≡ false
    pub fits : ltb (max_bytes_for config (is_anonymous creator)) (byte_len new.content) ≡ false
    pub titled : normalize_title new.title ≡ ok title
    pub clean : check_for_secrets x new.content (is_anonymous creator) new.confirm_secrets ≡ ok tt
    pub within : creator_quota config env creator (byte_len new.content) d ≡ ok tt
    pub sealed : seal_body x env new.content new.password ≡ ok body
    pub built :
        row
        ≡ new_row x config env creator client_ip new title
            (normalize_language new.language)
            body
            (resolve_expiry env.now new.expires_in (is_anonymous creator) config.anonymous_ttl_days)

  pub prepare-Accepted :
      (creator : Creator) (client_ip : Option Text) (new : NewPaste) (d : Db) (row : Paste)
      → prepare x config env creator client_ip new d ≡ ok row
      → Accepted creator client_ip new d row
  unfolding prepare
  prepare-Accepted creator client_ip new d row h =
      let (h₁, k₁) = >>-ok (refuse _ _) _ h in
      let (h₂, k₂) = >>-ok (refuse _ _) _ k₁ in
      let (h₃, k₃) = >>-ok (refuse _ _) _ k₂ in
      let (title, h₄, k₄) = >>=-ok _ _ k₃ in
      let (h₅, k₅) = >>-ok _ _ k₄ in
      let (h₆, k₆) = >>-ok _ _ k₅ in
      let (body, h₇, k₇) = >>=-ok _ _ k₆ in
      record {
        title = title;
        body = body;
        allowed = refuse-eq-ok _ _ h₁;
        nonempty = refuse-eq-ok _ _ h₂;
        fits = refuse-eq-ok _ _ h₃;
        titled = h₄;
        clean = h₅;
        within = h₆;
        sealed = h₇;
        built = sym (ok_inj k₇);
      }

  live_row :
      (row : Paste) (e : Option ℕ)
      → row.expires_at ≡ e
      → ((t : ℕ) → e ≡ some t → env.now < t)
      → is_live env.now row ≡ true
  live_row row none h p = rw h
  live_row row (some t) h p = rw h (lt→ltb env.now t (p t refl))

  Accepted-is_live :
      {creator : Creator} {client_ip : Option Text} {new : NewPaste} {d : Db} {row : Paste}
      → Accepted creator client_ip new d row
      → is_live env.now row ≡ true
  unfolding new_row
  Accepted-is_live {creator = creator} {new = new} {row = row} a =
      live_row row _ (ap (λ (p : Paste). p.expires_at) a.built) (λ t.
        resolve_expiry_future env.now new.expires_in (is_anonymous creator)
          config.anonymous_ttl_days {t = t})

  select_new :
      (row : Paste) (ps : List Paste)
      → is_live env.now row ≡ true
      → select row.id env.now (row ∷ ps) ≡ some row
  unfolding select
  select_new row ps h = rw (text_eq_refl row.id, h)

  module _ (creator : Creator) (client_ip : Option Text) (new : NewPaste) (d : Db) where
    -- What `create` leaves and answers when it stores `row`: the row, or an error where only the read
    -- that ends it is not answered.
    abbrev pub Stores : Paste → Db × Result Created → Type 0
    Stores row r =
        Accepted creator client_ip new d row
        × (may_insert row d.pastes ≡ true)
        × (select row.id env.now r.0.pastes ≡ some row)
        × (r ≡ (
          recorded x config env (codes "paste.create") (account_id creator) row.id client_ip
              (record d { pastes = row ∷ d.pastes }),
          if env.up 2
              then ok (record {
                paste = row;
                edit_token = if is_anonymous creator then some env.fresh_token else none;
              })
              else err db,
        ))

    store_cases :
        (row : Paste)
        → Accepted creator client_ip new d row
        → (store x config env creator client_ip row d ≡ (d, err db))
          ⊎ Stores row (store x config env creator client_ip row d)
    unfolding store load
    store_cases row a = elim (Bool-cases (env.up 1 && may_insert row d.pastes)) [
      | inr refused ↦ inl (rw refused)
      | inl stored ↦
          let found = select_new row d.pastes (Accepted-is_live a) in
          elim (Bool-cases (env.up 2)) [
            | inl read ↦ inr (rw (stored, read) (a, ground (arith, stored), found, rw found))
            | inr unread ↦ inr (rw (stored, unread) (a, ground (arith, stored), found, refl))
          ]
    ]

    -- A creation answers with an error and changes nothing; or it passed every check, with a quota
    -- that counts as empty where the database does not answer the count, and stored one row, which
    -- the reads then find, with an audit entry. It then answers with that row and the token of a
    -- stranger, or with a database error where only the read that ends it is not answered.
    pub create_cases :
        ((e : PasteError) × (create x config env creator client_ip new d ≡ (d, err e)))
        ⊎ ((row : Paste) × Stores row (create x config env creator client_ip new d))
    unfolding create
    create_cases = prepared (prepare x config env creator client_ip new d) refl
      where
        prepared :
            (r : Result Paste)
            → prepare x config env creator client_ip new d ≡ r
            → ((e : PasteError) × (create x config env creator client_ip new d ≡ (d, err e)))
              ⊎ ((row : Paste) × Stores row (create x config env creator client_ip new d))
        prepared (err e) h = inl (e, rw h)
        prepared (ok row) h =
            elim (store_cases row (prepare-Accepted creator client_ip new d row h)) [
              | inl refused ↦ inl (db, rw h refused)
              | inr stored ↦ inr (row, rw h stored)
            ]
