-- ===== src/Deletion/Cascade.antt =====
-- What a deletion takes with it, and what it leaves.
use klappstuhl_me.Prelude.{
  ℕ, ◌≡◌, refl, sym, subst, Bool, true, false, not, ◌||◌, List, [], ◌∷◌, map, ◌==◌, Bool-cases, inl,
  inr, any, keep_if, All, length, arith,
}
use klappstuhl_me.Text.{Text, text_eq}
use klappstuhl_me.Text.Equality.{text_eq_refl}
use klappstuhl_me.Account.{Account}
use klappstuhl_me.Scope.{Session}
use klappstuhl_me.Links.{ShortLink}
use klappstuhl_me.Paste.Row.{Paste, owner_is}
use klappstuhl_me.Paste.Store.{Db, delete_paste, unlink, has_id}
use klappstuhl_me.Paste.Store.WellFormed.{WellFormed, rest, unlink-id}
use klappstuhl_me.Paste.Service.Reaper.{delete_all}
use klappstuhl_me.Paste.Service.Invariant.{delete_all-WellFormed}
use klappstuhl_me.Site.{Site, RecoveryCode}
use klappstuhl_me.Deletion.{
  Image, has_uploader, orphan, owned_ids, Estate, delete_row, purge_account,
}

none_kept {ℓ} :
    {A : Type ℓ} (p : A → Bool) (xs : List A) → any p (keep_if (λ x. not (p x)) xs) ≡ false
none_kept p [] = refl
none_kept p (x ∷ xs) = elim (Bool-cases (p x)) [
  | inl hit ↦ rw hit (none_kept p xs)
  | inr miss ↦ rw (miss, miss) (none_kept p xs)
]

none_orphaned : (id : ℕ) (is : List Image) → any (has_uploader id) (map (orphan id) is) ≡ false
none_orphaned id [] = refl
none_orphaned id (i ∷ is) = elim (Bool-cases (has_uploader id i)) [
  | inl mine ↦ rw mine (none_orphaned id is)
  | inr other ↦ rw (other, other) (none_orphaned id is)
]

same_length : (id : ℕ) (is : List Image) → length (map (orphan id) is) ≡ length is
same_length id [] = refl
same_length id (i ∷ is) = omega (arith, same_length id is)

module _ (id : ℕ) where
  abbrev is_owned : Paste → Bool
  is_owned p = owner_is p.account_id id

  -- Every paste of the account is named.
  abbrev Covers : List Text → List Paste → Type 0
  Covers ids ps = All (λ (p : Paste). is_owned p ≡ true → any (text_eq p.id) ids ≡ true) ps

  Covers-cons : (t : Text) (ids : List Text) (ps : List Paste) → Covers ids ps → Covers (t ∷ ids) ps
  Covers-cons t ids [] h = tt
  Covers-cons t ids (p ∷ ps) h =
      (λ mine. or_right (text_eq p.id t) _ (h.0 mine), Covers-cons t ids ps h.1)
    where
      or_right : (a b : Bool) → b ≡ true → (a || b) ≡ true
      or_right a b k = ground arith

  owned_ids-mine :
      (p : Paste) (ps : List Paste)
      → is_owned p ≡ true
      → owned_ids id (p ∷ ps) ≡ p.id ∷ owned_ids id ps
  owned_ids-mine p ps mine = rw mine refl

  owned_ids-other :
      (p : Paste) (ps : List Paste) → is_owned p ≡ false → owned_ids id (p ∷ ps) ≡ owned_ids id ps
  owned_ids-other p ps other = rw other refl

  Covers-owned : (ps : List Paste) → Covers (owned_ids id ps) ps
  Covers-owned [] = tt
  Covers-owned (p ∷ ps) = elim (Bool-cases (is_owned p)) [
    | inl mine ↦
        subst (λ ids. Covers ids (p ∷ ps)) (sym (owned_ids-mine p ps mine))
          (
            λ e. rw (text_eq_refl p.id) refl,
            Covers-cons p.id (owned_ids id ps) ps (Covers-owned ps),
          )
    | inr other ↦
        subst (λ ids. Covers ids (p ∷ ps)) (sym (owned_ids-other p ps other))
          (λ e. cc (e, other), Covers-owned ps)
  ]

  unlink-is_owned : (t : Text) (p : Paste) → is_owned (unlink t p) ≡ is_owned p
  unlink-is_owned t p = ground arith

  Covers-rest :
      (t : Text) (ids : List Text) (ps : List Paste) → Covers (t ∷ ids) ps → Covers ids (rest t ps)
  Covers-rest t ids [] h = tt
  Covers-rest t ids (p ∷ ps) h = elim (Bool-cases (has_id t p)) [
    | inl hit ↦ rw hit (Covers-rest t ids ps h.1)
    | inr miss ↦
        rw (miss, unlink-is_owned t p, unlink-id t p)
          (λ mine. rw miss at h.0 mine, Covers-rest t ids ps h.1)
  ]

  none_owned : (ps : List Paste) → Covers [] ps → any is_owned ps ≡ false
  none_owned [] h = refl
  none_owned (p ∷ ps) h = elim (Bool-cases (is_owned p)) [
    | inl mine ↦ cc (h.0 mine)
    | inr other ↦ rw other (none_owned ps h.1)
  ]

  all_deleted :
      (ids : List Text) (d : Db)
      → Covers ids d.pastes
      → any is_owned (delete_all ids d).pastes ≡ false
  unfolding delete_all delete_paste
  all_deleted [] d h = none_owned d.pastes h
  all_deleted (t ∷ ids) d h = all_deleted ids (delete_paste t d) (Covers-rest t ids d.pastes h)

module _ (site : Site) where
  -- No row is left that names the account.
  pub record Gone (id : ℕ) (e : Estate site) : Type 0 where
    pub account : any (λ (a : Account). a.id == id) e.app.store.accounts ≡ false
    pub sessions : any (λ (s : Session). s.account_id == id) e.app.store.rows ≡ false
    pub codes : any (λ (c : RecoveryCode). c.account_id == id) e.app.recovery ≡ false
    pub pastes : any (λ (p : Paste). owner_is p.account_id id) e.pastes.pastes ≡ false
    pub links : any (λ (l : ShortLink). l.account_id == id) e.links ≡ false
    pub images : any (has_uploader id) e.images ≡ false

  -- A deleted account leaves no row that names it: no session or API key, no recovery code, no paste,
  -- no short link, and no image of which it is the uploader.
  pub purge_account-Gone :
      (id : ℕ) (delete_images : Bool) (e : Estate site)
      → Gone id (purge_account site id delete_images e)
  unfolding purge_account delete_row
  purge_account-Gone id true e = record {
    account = none_kept _ e.app.store.accounts;
    sessions = none_kept _ e.app.store.rows;
    codes = none_kept _ e.app.recovery;
    pastes =
        all_deleted id (owned_ids id e.pastes.pastes) e.pastes (Covers-owned id e.pastes.pastes);
    links = none_kept _ e.links;
    images = none_orphaned id (keep_if (λ i. not (has_uploader id i)) e.images);
  }
  purge_account-Gone id false e = record {
    account = none_kept _ e.app.store.accounts;
    sessions = none_kept _ e.app.store.rows;
    codes = none_kept _ e.app.recovery;
    pastes =
        all_deleted id (owned_ids id e.pastes.pastes) e.pastes (Covers-owned id e.pastes.pastes);
    links = none_kept _ e.links;
    images = none_orphaned id e.images;
  }

  -- Where the images are not to be deleted, as many are there as before.
  pub purge_account-images :
      (id : ℕ) (e : Estate site) → length (purge_account site id false e).images ≡ length e.images
  unfolding purge_account delete_row
  purge_account-images id e = same_length id e.images

  -- The pastes and their revisions stay well formed.
  pub purge_account-WellFormed :
      (id : ℕ) (delete_images : Bool) (e : Estate site)
      → WellFormed e.pastes
      → WellFormed (purge_account site id delete_images e).pastes
  unfolding purge_account delete_row
  purge_account-WellFormed id true e w =
      let kept = delete_all-WellFormed (owned_ids id e.pastes.pastes) e.pastes w in
      record { unique = kept.unique; sound = kept.sound; history = kept.history }
  purge_account-WellFormed id false e w =
      let kept = delete_all-WellFormed (owned_ids id e.pastes.pastes) e.pastes w in
      record { unique = kept.unique; sound = kept.sound; history = kept.history }
