-- ===== src/Paste/Store/WellFormed.antt =====
-- The well-formedness of the tables, and that each statement keeps it.
use klappstuhl_me.Prelude.{
  ℕ, ◌≡◌, refl, ◌∙◌, true, false, not, ◌||◌, some, List, [], ◌∷◌, map, arith, keep_if, length,
  is_some, All, Bool-cases, inl, inr, some_inj,
}
use klappstuhl_me.Text.{Text, text_eq}
use klappstuhl_me.Text.Equality.{text_eq_refl, text_eq_sound, text_eq_iff}
use klappstuhl_me.Paste.Row.{Paste, PasteRevision}
use klappstuhl_me.Paste.Store.{
  Db, has_id, exists, select, is_live, unlink, other_paste, delete_paste, update,
}

-- No id stands twice.
abbrev pub NoDuplicates : List Paste → Type 0
NoDuplicates [] = Unit {0}
NoDuplicates (p ∷ ps) = (exists p.id ps ≡ false) × NoDuplicates ps

-- The size is that of the stored body, a salt comes with a nonce, and what nobody owns has an
-- expiry and an edit token.
pub record IsSound (p : Paste) : Type 0 where
  pub sized : p.size_bytes ≡ length p.content
  pub sealed : is_some p.enc_salt ≡ is_some p.enc_nonce
  pub expiring : is_some p.account_id || is_some p.expires_at ≡ true
  pub editable : is_some p.account_id || is_some p.edit_token_hash ≡ true

abbrev pub HasPaste : List Paste → PasteRevision → Type 0
HasPaste ps r = exists r.paste_id ps ≡ true

pub record WellFormed (d : Db) : Type 0 where
  pub unique : NoDuplicates d.pastes
  pub sound : All IsSound d.pastes
  pub history : All (HasPaste d.pastes) d.revisions

module _ (id : Text) (f : Paste → Paste) (same : (p : Paste) → (f p).id ≡ p.id) where
  pub exists-update : (j : Text) (ps : List Paste) → exists j (update id f ps) ≡ exists j ps
  unfolding update
  exists-update j [] = refl
  exists-update j (p ∷ ps) = elim (Bool-cases (has_id id p)) [
    | inl hit ↦ rw (hit, same p, exists-update j ps)
    | inr miss ↦ rw (miss, exists-update j ps)
  ]

  NoDuplicates-update : (ps : List Paste) → NoDuplicates ps → NoDuplicates (update id f ps)
  unfolding update
  NoDuplicates-update [] h = tt
  NoDuplicates-update (p ∷ ps) h = elim (Bool-cases (has_id id p)) [
    | inl hit ↦ rw (hit, same p) (exists-update p.id ps ∙ h.0, NoDuplicates-update ps h.1)
    | inr miss ↦ rw miss (exists-update p.id ps ∙ h.0, NoDuplicates-update ps h.1)
  ]

  All-IsSound-update :
      (ps : List Paste)
      → All (λ p. has_id id p ≡ true → IsSound p → IsSound (f p)) ps
      → All IsSound ps
      → All IsSound (update id f ps)
  unfolding update
  All-IsSound-update [] keep h = tt
  All-IsSound-update (p ∷ ps) keep h = elim (Bool-cases (has_id id p)) [
    | inl hit ↦ rw hit (keep.0 hit h.0, All-IsSound-update ps keep.1 h.1)
    | inr miss ↦ rw miss (h.0, All-IsSound-update ps keep.1 h.1)
  ]

  pub All-HasPaste-update :
      (ps : List Paste) (rs : List PasteRevision)
      → All (HasPaste ps) rs
      → All (HasPaste (update id f ps)) rs
  All-HasPaste-update ps [] h = tt
  All-HasPaste-update ps (r ∷ rs) h =
      (exists-update r.paste_id ps ∙ h.0, All-HasPaste-update ps rs h.1)

  -- An `UPDATE` that keeps the id, and the soundness of the row, keeps the tables well formed.
  pub update-WellFormed :
      (d : Db)
      → All (λ p. has_id id p ≡ true → IsSound p → IsSound (f p)) d.pastes
      → WellFormed d
      → WellFormed (record d { pastes = update id f d.pastes })
  update-WellFormed d keep w = record {
    unique = NoDuplicates-update d.pastes w.unique;
    sound = All-IsSound-update d.pastes keep w.sound;
    history = All-HasPaste-update d.pastes d.revisions w.history;
  }

module _ (id : Text) where
  abbrev pub rest : List Paste → List Paste
  rest ps = map (unlink id) (keep_if (λ p. not (has_id id p)) ps)

  pub unlink-id : (p : Paste) → (unlink id p).id ≡ p.id
  unlink-id p = ground arith

  unlink-IsSound : (p : Paste) → IsSound p → IsSound (unlink id p)
  unlink-IsSound p s = record {
    sized = ground (arith, s.sized);
    sealed = ground (arith, s.sealed);
    expiring = ground (arith, s.expiring);
    editable = ground (arith, s.editable);
  }

  -- A deleted id is gone.
  pub exists-rest_self : (ps : List Paste) → exists id (rest ps) ≡ false
  exists-rest_self [] = refl
  exists-rest_self (p ∷ ps) = elim (Bool-cases (has_id id p)) [
    | inl hit ↦ rw hit (exists-rest_self ps)
    | inr miss ↦ rw (miss, unlink-id p, miss, exists-rest_self ps)
  ]

  -- Another is there as before.
  pub exists-rest_other :
      (j : Text) (ps : List Paste) → text_eq j id ≡ false → exists j (rest ps) ≡ exists j ps
  exists-rest_other j [] h = refl
  exists-rest_other j (p ∷ ps) h = elim (Bool-cases (has_id id p)) [
    | inl hit ↦
        let other : text_eq p.id j ≡ false = ground (
          arith,
          text_eq_sound p.id id hit,
          text_eq_sound p.id j,
          text_eq_refl id,
          text_eq_iff j id,
        ) in
        rw (hit, other) (exists-rest_other j ps h)
    | inr miss ↦ rw (miss, unlink-id p, exists-rest_other j ps h)
  ]

  pub exists-rest_none :
      (j : Text) (ps : List Paste) → exists j ps ≡ false → exists j (rest ps) ≡ false
  exists-rest_none j ps h = elim (Bool-cases (text_eq j id)) [
    | inl same ↦ rw (text_eq_sound j id same) (exists-rest_self ps)
    | inr other ↦ exists-rest_other j ps other ∙ h
  ]

  NoDuplicates-rest : (ps : List Paste) → NoDuplicates ps → NoDuplicates (rest ps)
  NoDuplicates-rest [] h = tt
  NoDuplicates-rest (p ∷ ps) h = elim (Bool-cases (has_id id p)) [
    | inl hit ↦ rw hit (NoDuplicates-rest ps h.1)
    | inr miss ↦ rw (miss, unlink-id p) (exists-rest_none p.id ps h.0, NoDuplicates-rest ps h.1)
  ]

  All-IsSound-rest : (ps : List Paste) → All IsSound ps → All IsSound (rest ps)
  All-IsSound-rest [] h = tt
  All-IsSound-rest (p ∷ ps) h = elim (Bool-cases (has_id id p)) [
    | inl hit ↦ rw hit (All-IsSound-rest ps h.1)
    | inr miss ↦ rw miss (unlink-IsSound p h.0, All-IsSound-rest ps h.1)
  ]

  All-HasPaste-rest :
      (ps : List Paste) (rs : List PasteRevision)
      → All (HasPaste ps) rs
      → All (HasPaste (rest ps)) (keep_if (other_paste id) rs)
  All-HasPaste-rest ps [] h = tt
  All-HasPaste-rest ps (r ∷ rs) h = elim (Bool-cases (text_eq r.paste_id id)) [
    | inl hit ↦ rw hit (All-HasPaste-rest ps rs h.1)
    | inr miss ↦ rw miss (exists-rest_other r.paste_id ps miss ∙ h.0, All-HasPaste-rest ps rs h.1)
  ]

  -- `DELETE` keeps the tables well formed, by its cascade.
  pub delete_paste-WellFormed : (d : Db) → WellFormed d → WellFormed (delete_paste id d)
  unfolding delete_paste
  delete_paste-WellFormed d w = record {
    unique = NoDuplicates-rest d.pastes w.unique;
    sound = All-IsSound-rest d.pastes w.sound;
    history = All-HasPaste-rest d.pastes d.revisions w.history;
  }

-- What holds of every paste holds along a list.
pub everywhere {ℓ κ} : {A : Type ℓ} (P : A → Type κ) → ((a : A) → P a) → (xs : List A) → All P xs
everywhere P h [] = tt
everywhere P h (a ∷ xs) = (h a, everywhere P h xs)

absent :
    (id : Text) (ps : List Paste) (q : Paste)
    → exists id ps ≡ false
    → All (λ p. has_id id p ≡ true → p ≡ q) ps
absent id [] q h = tt
absent id (p ∷ ps) q h = (λ hit. cc (rw hit at h), absent id ps q (ground arith))

pub select-exists :
    (id : Text) (now : ℕ) (ps : List Paste) (q : Paste)
    → select id now ps ≡ some q
    → exists id ps ≡ true
unfolding select
select-exists id now [] q h = cc
select-exists id now (p ∷ ps) q h = elim (Bool-cases (has_id id p)) [
  | inl hit ↦ rw hit
  | inr miss ↦ rw miss (select-exists id now ps q (rw miss at h))
]

-- The row that a read by id finds is the only one with that id.
pub select_only :
    (id : Text) (now : ℕ) (ps : List Paste) (q : Paste)
    → NoDuplicates ps
    → select id now ps ≡ some q
    → All (λ p. has_id id p ≡ true → p ≡ q) ps
select_only id now [] q u h = tt
select_only id now (p ∷ ps) q u h = elim (Bool-cases (has_id id p)) [
  | inr miss ↦ (λ hit. cc (hit, miss), select_only id now ps q u.1 (unfold select in rw miss at h))
  | inl hit ↦ elim (Bool-cases (is_live now p)) [
    | inl live ↦ (
      λ _. some_inj (unfold select in rw (hit, live) at h),
      absent id ps q (rw (← text_eq_sound p.id id hit) u.0),
    )
    | inr dead ↦ absurd (
        ground (
          arith,
          u.0,
          hit,
          text_eq_sound p.id id,
          select-exists id now ps q (unfold select in rw (hit, dead) at h),
        ))
  ]
]

module _ (p : Paste) where
  All-HasPaste-cons :
      (ps : List Paste) (rs : List PasteRevision)
      → All (HasPaste ps) rs
      → All (HasPaste (p ∷ ps)) rs
  All-HasPaste-cons ps [] h = tt
  All-HasPaste-cons ps (r ∷ rs) h = (ground (arith, h.0), All-HasPaste-cons ps rs h.1)

  -- `INSERT` of a sound row under a new id keeps the tables well formed.
  pub insert-WellFormed :
      (d : Db)
      → IsSound p
      → exists p.id d.pastes ≡ false
      → WellFormed d
      → WellFormed (record d { pastes = p ∷ d.pastes })
  insert-WellFormed d s fresh w = record {
    unique = (fresh, w.unique);
    sound = (s, w.sound);
    history = All-HasPaste-cons d.pastes d.revisions w.history;
  }
