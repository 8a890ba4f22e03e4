-- ===== src/Paste/Service/Reaper/Expiry.antt =====
-- Which rows the deletion of the reaper takes: all that are expired, and none that is live.
use klappstuhl_me.Prelude.{
  ℕ, ◌≡◌, refl, ◌∙◌, Bool, true, false, ◌||◌, some, List, [], ◌∷◌, if◌then◌else◌, any, All,
  Bool-cases, arith, inl, inr,
}
use klappstuhl_me.Text.{Text, text_eq}
use klappstuhl_me.Text.Equality.{text_eq_refl, text_eq_sound}
use klappstuhl_me.Paste.Row.{Paste}
use klappstuhl_me.Paste.Store.{select, Db, is_live, delete_paste, exists, has_id, unlink}
use klappstuhl_me.Paste.Store.WellFormed.{
  WellFormed, NoDuplicates, unlink-id, rest, select-exists, exists-rest_other,
}
use klappstuhl_me.Paste.Service.Reaper.{expired_ids, delete_all, reap_expired}

-- A paste that is live, or whose id is still to be deleted.
abbrev Pending : ℕ → List Text → Paste → Type 0
Pending now ids p = (is_live now p || any (text_eq p.id) ids) ≡ true

or_more : (a b c : Bool) → (a || c) ≡ true → (a || (b || c)) ≡ true
or_more true b c h = refl
or_more false true c h = refl
or_more false false c h = h

or_less : (a b c : Bool) → b ≡ false → (a || (b || c)) ≡ true → (a || c) ≡ true
or_less true b c e h = refl
or_less false true c e h = cc
or_less false false c e h = h

module _ (now : ℕ) (id : Text) (ids : List Text) where
  Pending-more : (ps : List Paste) → All (Pending now ids) ps → All (Pending now (id ∷ ids)) ps
  Pending-more [] h = tt
  Pending-more (p ∷ ps) h =
      (or_more (is_live now p) (text_eq p.id id) (any (text_eq p.id) ids) h.0, Pending-more ps h.1)

  unlink-is_live : (p : Paste) → is_live now (unlink id p) ≡ is_live now p
  unlink-is_live p = ground arith

  Pending-rest :
      (ps : List Paste) → All (Pending now (id ∷ ids)) ps → All (Pending now ids) (rest id ps)
  Pending-rest [] h = tt
  Pending-rest (p ∷ ps) h = elim (Bool-cases (has_id id p)) [
    | inl hit ↦ rw hit (Pending-rest ps h.1)
    | inr miss ↦
        rw (miss, unlink-is_live p, unlink-id id p)
          (
            or_less (is_live now p) (text_eq p.id id) (any (text_eq p.id) ids) miss h.0,
            Pending-rest ps h.1,
          )
  ]

Pending-first :
    (now : ℕ) (p : Paste) (ps : List Paste) (ids : List Text) (b : Bool)
    → is_live now p ≡ b
    → All (Pending now ids) ps
    → All (Pending now (if b then ids else p.id ∷ ids)) (p ∷ ps)
Pending-first now p ps ids true live h = (rw live, h)
Pending-first now p ps ids false dead h =
    (rw (dead, text_eq_refl p.id), Pending-more now p.id ids ps h)

Pending-expired_ids : (now : ℕ) (ps : List Paste) → All (Pending now (expired_ids now ps)) ps
unfolding expired_ids
Pending-expired_ids now [] = tt
Pending-expired_ids now (p ∷ ps) =
    Pending-first now p ps (expired_ids now ps) (is_live now p) refl (Pending-expired_ids now ps)

or_nothing : (a : Bool) → (a || false) ≡ true → a ≡ true
or_nothing true h = refl
or_nothing false h = h

live_everywhere :
    (now : ℕ) (ps : List Paste) → All (Pending now []) ps → All (λ p. is_live now p ≡ true) ps
live_everywhere now [] h = tt
live_everywhere now (p ∷ ps) h = (or_nothing (is_live now p) h.0, live_everywhere now ps h.1)

live-delete_all :
    (now : ℕ) (ids : List Text) (d : Db)
    → All (Pending now ids) d.pastes
    → All (λ p. is_live now p ≡ true) (delete_all ids d).pastes
unfolding delete_all
live-delete_all now [] d h = live_everywhere now d.pastes h
live-delete_all now (id ∷ ids) d h =
    live-delete_all now ids (delete_paste id d)
      (unfold delete_paste in Pending-rest now id ids d.pastes h)

-- Expired rows are gone after the reaper's deletion: every paste that is left is live.
pub reap_expired-live :
    (now : ℕ) (d : Db) → All (λ p. is_live now p ≡ true) (reap_expired now d).pastes
unfolding reap_expired
reap_expired-live now d =
    live-delete_all now (expired_ids now d.pastes) d (Pending-expired_ids now d.pastes)

other_way : (s t : Text) → text_eq s t ≡ false → text_eq t s ≡ false
other_way s t h = elim (Bool-cases (text_eq t s)) [
  | inr differ ↦ differ
  | inl same ↦ cc (h, text_eq_refl s, text_eq_sound t s same)
]

module _ (j : Text) where
  abbrev Spared : List Text → Type 0
  Spared ids = any (λ id. text_eq id j) ids ≡ false

  exists-delete_all :
      (ids : List Text) (d : Db)
      → Spared ids
      → exists j (delete_all ids d).pastes ≡ exists j d.pastes
  unfolding delete_all
  exists-delete_all [] d h = refl
  exists-delete_all (id ∷ ids) d h = elim (Bool-cases (text_eq id j)) [
    | inl hit ↦ cc (rw hit at h)
    | inr miss ↦
        exists-delete_all ids (delete_paste id d) (rw miss at h)
        ∙ (unfold delete_paste in exists-rest_other id j d.pastes (other_way id j miss))
  ]

  module _ (now : ℕ) where
    Spared-first :
        (p : Paste) (ids : List Text) (b : Bool)
        → has_id j p ≡ false
        → Spared ids
        → Spared (if b then ids else p.id ∷ ids)
    Spared-first p ids true other h = h
    Spared-first p ids false other h = rw other h

    Spared-absent : (ps : List Paste) → exists j ps ≡ false → Spared (expired_ids now ps)
    unfolding expired_ids
    Spared-absent [] h = refl
    Spared-absent (p ∷ ps) h = elim (Bool-cases (has_id j p)) [
      | inl hit ↦ cc (rw hit at h)
      | inr miss ↦
          Spared-first p (expired_ids now ps) (is_live now p) miss (Spared-absent ps (rw miss at h))
    ]

    Spared-live :
        (ps : List Paste) (q : Paste)
        → NoDuplicates ps
        → select j now ps ≡ some q
        → Spared (expired_ids now ps)
    unfolding expired_ids
    Spared-live [] q u h = refl
    Spared-live (p ∷ ps) q u h = elim (Bool-cases (has_id j p)) [
      | inr miss ↦
          Spared-first p (expired_ids now ps) (is_live now p) miss
            (Spared-live ps q u.1 (unfold select in rw miss at h))
      | inl hit ↦
          let gone : exists j ps ≡ false = rw (← text_eq_sound p.id j hit) u.0 in
          elim (Bool-cases (is_live now p)) [
            | inl live ↦ rw live (Spared-absent ps gone)
            | inr dead ↦ cc (gone, select-exists j now ps q (unfold select in rw (hit, dead) at h))
          ]
    ]

-- The deletion of the reaper spares what a read finds: a paste that is live is still there.
pub reap_expired-exists :
    (now : ℕ) (id : Text) (d : Db) (p : Paste)
    → WellFormed d
    → select id now d.pastes ≡ some p
    → exists id (reap_expired now d).pastes ≡ true
unfolding reap_expired
reap_expired-exists now id d p w found =
    exists-delete_all id (expired_ids now d.pastes) d (Spared-live id now d.pastes p w.unique found)
    ∙ select-exists id now d.pastes p found
