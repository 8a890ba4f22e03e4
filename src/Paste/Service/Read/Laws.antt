-- ===== src/Paste/Service/Read/Laws.antt =====
-- What the reads show, and that a burn happens once.
use klappstuhl_me.Prelude.{
  ℕ, ◌≡◌, refl, sym, ap, ◌∙◌, Bool, true, false, ◌&&◌, Option, none, some, List, [], ◌∷◌, ◌⊎◌, inl,
  inr, keep_if, find, take, All, Bool-cases, Option-cases, and_right, some_inj, leb, zero, suc,
}
use klappstuhl_me.Text.{Text, text_eq}
use klappstuhl_me.Paste.Row.{Paste}
use klappstuhl_me.Paste.External.{External}
use klappstuhl_me.Paste.Error.{not_found, ok, err}
use klappstuhl_me.Paste.Access.{Actor, may_modify}
use klappstuhl_me.Paste.Store.{
  Db, has_id, is_live, select, exists, delete_paste, insert_newest, newest_first, owned,
}
use klappstuhl_me.Paste.Store.WellFormed.{exists-rest_self, exists-rest_other}
use klappstuhl_me.Paste.Service.{Env}
use klappstuhl_me.Paste.Service.Read.{
  load, load_for, list_for_account, is_public, list_public, burn,
}

-- A row that may be shown at a time: it is not expired.
abbrev pub IsVisible : Env → Paste → Type 0
IsVisible env p = is_live env.now p ≡ true

find_sound {ℓ} : {A : Type ℓ} (f : A → Bool) (xs : List A) (a : A) → find f xs ≡ some a → f a ≡ true
find_sound f [] a h = cc
find_sound f (x ∷ xs) a h = elim (Bool-cases (f x)) [
  | inl hit ↦ rw (← some_inj (rw hit at h)) hit
  | inr miss ↦ find_sound f xs a (rw miss at h)
]

load_sound :
    (env : Env) (id : Text) (d : Db) (p : Paste)
    → load env id d ≡ some p
    → (has_id id p && is_live env.now p) ≡ true
unfolding load select
load_sound env id d p h = elim (Bool-cases (env.up 0)) [
  | inl up ↦ find_sound _ d.pastes p (rw up at h)
  | inr down ↦ cc (rw down at h)
]

All-IsVisible-keep_if :
    (env : Env) (f : Paste → Bool) (ps : List Paste)
    → ((p : Paste) → f p ≡ true → IsVisible env p)
    → All (IsVisible env) (keep_if f ps)
All-IsVisible-keep_if env f [] h = tt
All-IsVisible-keep_if env f (p ∷ ps) h = elim (Bool-cases (f p)) [
  | inl kept ↦ rw kept (h p kept, All-IsVisible-keep_if env f ps h)
  | inr gone ↦ rw gone (All-IsVisible-keep_if env f ps h)
]

All-IsVisible-insert :
    (env : Env) (p : Paste) (ps : List Paste)
    → IsVisible env p
    → All (IsVisible env) ps
    → All (IsVisible env) (insert_newest p ps)
unfolding insert_newest
All-IsVisible-insert env p [] h k = (h, tt)
All-IsVisible-insert env p (q ∷ qs) h k = elim (Bool-cases (leb q.created_at p.created_at)) [
  | inl newer ↦ rw newer (h, k)
  | inr older ↦ rw older (k.0, All-IsVisible-insert env p qs h k.1)
]

All-IsVisible-newest_first :
    (env : Env) (ps : List Paste) → All (IsVisible env) ps → All (IsVisible env) (newest_first ps)
unfolding newest_first
All-IsVisible-newest_first env [] h = tt
All-IsVisible-newest_first env (p ∷ ps) h =
    All-IsVisible-insert env p (newest_first ps) h.0 (All-IsVisible-newest_first env ps h.1)

All-take {ℓ κ} : {A : Type ℓ} (P : A → Type κ) (n : ℕ) (xs : List A) → All P xs → All P (take n xs)
All-take P zero xs h = tt
All-take P (suc n) [] h = tt
All-take P (suc n) (x ∷ xs) h = (h.0, All-take P n xs h.1)

-- No read shows an expired paste: not by its id, not in a list, not to a reveal.
pub expired_invisible :
    (env : Env) (id : Text) (account_id limit : ℕ) (d : Db)
    → ((p : Paste) → load env id d ≡ some p → IsVisible env p)
      × ((p : Paste) → (burn env id d).1 ≡ some p → IsVisible env p)
      × All (IsVisible env) (list_for_account env account_id d)
      × All (IsVisible env) (list_public env account_id limit d)
unfolding burn list_for_account list_public
expired_invisible env id account_id limit d = (
  λ p h. and_right _ _ (load_sound env id d p h),
  λ p h. elim (Option-cases (load env id d)) [
    | inl missing ↦ cc (rw missing at h)
    | inr (q, found) ↦ rw (← some_inj (rw found at h)) (and_right _ _ (load_sound env id d q found))
  ],
  (elim (Bool-cases (env.up 0)) [
    | inl up ↦ rw up (
        All-IsVisible-newest_first env _ (All-IsVisible-keep_if env (is_live env.now) _ (λ p h. h)))
    | inr down ↦ rw down tt
  ]),
  (elim (Bool-cases (env.up 0)) [
    | inl up ↦ rw up (
        All-take _ limit _ (
          All-IsVisible-newest_first env _ (
            All-IsVisible-keep_if env (λ p. is_public p && is_live env.now p)
              (owned account_id d.pastes) (λ p h. and_right _ _ h))))
    | inr down ↦ rw down tt
  ]),
)

select_absent :
    (id : Text) (now : ℕ) (ps : List Paste) → exists id ps ≡ false → select id now ps ≡ none
unfolding select
select_absent id now [] h = refl
select_absent id now (p ∷ ps) h = elim (Bool-cases (has_id id p)) [
  | inl hit ↦ cc (rw hit at h)
  | inr miss ↦ rw miss (select_absent id now ps (rw miss at h))
]

load_absent : (env : Env) (id : Text) (d : Db) → exists id d.pastes ≡ false → load env id d ≡ none
unfolding load
load_absent env id d h = elim (Bool-cases (env.up 0)) [
  | inl up ↦ rw up (select_absent id env.now d.pastes h)
  | inr down ↦ rw down
]

-- A reveal that hands out a body destroys the paste: whoever reads or reveals it next, at whatever
-- time, gets nothing and changes nothing, and every other paste is still there.
pub burn_once :
    (env later : Env) (id : Text) (d d' : Db) (p : Paste)
    → burn env id d ≡ (d', some p)
    → (load later id d' ≡ none)
      × (burn later id d' ≡ (d', none))
      × ((j : Text) → text_eq j id ≡ false → exists j d'.pastes ≡ exists j d.pastes)
unfolding burn
burn_once env later id d d' p h = elim (Option-cases (load env id d)) [
  | inl missing ↦ cc (ap (λ (r : Db × Option Paste). r.1) (rw missing at h))
  | inr (q, found) ↦
      let same : delete_paste id d ≡ d' = ap (λ (r : Db × Option Paste). r.0) (rw found at h) in
      let gone : exists id (delete_paste id d).pastes ≡ false =
        unfold delete_paste in exists-rest_self id d.pastes in
      let none_left = load_absent later id (delete_paste id d) gone in
      rw (← same) (
        none_left,
        rw none_left,
        λ j other. unfold delete_paste in exists-rest_other id j d.pastes other,
      )
]

-- The owner's read answers with the paste exactly to who may modify it; a stranger gets the
-- same answer as for a paste that does not exist.
pub load_for_cases :
    (x : External) (env : Env) (id : Text) (actor : Actor) (d : Db)
    → ((p : Paste) × (load env id d ≡ some p)
        × (may_modify x actor p ≡ true)
        × (load_for x env id actor d ≡ ok p))
      ⊎ (((p : Paste) → load env id d ≡ some p → may_modify x actor p ≡ false)
          × (load_for x env id actor d ≡ err not_found))
unfolding load_for
load_for_cases x env id actor d = elim (Option-cases (load env id d)) [
  | inl missing ↦ inr (λ p h. cc (missing, h), rw missing)
  | inr (p, found) ↦ elim (Bool-cases (may_modify x actor p)) [
    | inl allowed ↦ inl (p, found, allowed, rw (found, allowed))
    | inr refused ↦ inr (λ q h. rw (← some_inj (sym found ∙ h)) refused, rw (found, refused))
  ]
]
