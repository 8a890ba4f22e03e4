-- ===== src/Paste/Service/Invariant.antt =====
-- The operations of src/site/paste/service.rs keep the tables well formed.
use klappstuhl_me.Prelude.{
  ◌+◌, ◌≡◌, refl, sym, ◌∙◌, Bool, true, false, Option, none, some, List, [], ◌∷◌, keep_if, is_some,
  All, Bool-cases, Option-cases, false_of_not, and_left, inl, inr, subst,
}
use klappstuhl_me.Text.{Text, codes}
use klappstuhl_me.Paste.Row.{Paste}
use klappstuhl_me.Paste.External.{External}
use klappstuhl_me.Paste.Crypto.{Sealed}
use klappstuhl_me.Paste.Error.{ok, ok_inj}
use klappstuhl_me.Paste.Access.{Creator, account, anonymous, is_anonymous, Actor, may_modify}
use klappstuhl_me.Paste.Validate.{resolve_expiry}
use klappstuhl_me.Paste.Validate.Laws.{resolve_expiry_anonymous}
use klappstuhl_me.Paste.Store.{Db, select, exists, may_insert, delete_paste, has_id}
use klappstuhl_me.Paste.Store.WellFormed.{
  WellFormed, IsSound, HasPaste, update-WellFormed, delete_paste-WellFormed, insert-WellFormed,
  everywhere, select_only, exists-update,
}
use klappstuhl_me.Paste.Service.{PasteConfig, Env, NewPaste, EditPaste}
use klappstuhl_me.Paste.Service.Create.{
  Body, seal_body, body_under, given_password, sealed_body, new_row, create, recorded,
}
use klappstuhl_me.Paste.Service.Create.Accepted.{Accepted, create_cases}
use klappstuhl_me.Paste.Service.Modify.Edited.{Edited, edit_cases}
use klappstuhl_me.Paste.Service.Modify.{actor_id, Changes, applied, commit_edit, edit, delete}
use klappstuhl_me.Paste.Service.Read.{load, count_view, burn}
use klappstuhl_me.Paste.Service.Reaper.{delete_all, keeps_revision, prune_revisions}

-- A salt comes with a nonce.
sealed_together : (o : Option Sealed) (b : Body) → sealed_body o ≡ ok b → is_some b.1 ≡ is_some b.2
sealed_together none b h = cc
sealed_together (some s) b h = rw (← ok_inj h)

body_together :
    (x : External) (env : Env) (content : Text) (password : Option Text) (b : Body)
    → body_under x env content password ≡ ok b
    → is_some b.1 ≡ is_some b.2
body_together x env content none b h = rw (← ok_inj h)
body_together x env content (some p) b h = sealed_together _ b h

module _ (x : External) (config : PasteConfig) (env : Env) where
  new_row-IsSound :
      (creator : Creator) (client_ip : Option Text) (new : NewPaste) (title language : Option Text)
      (body : Body)
      → is_some body.1 ≡ is_some body.2
      → IsSound (
          new_row x config env creator client_ip new title language body (
            resolve_expiry env.now new.expires_in (is_anonymous creator) config.anonymous_ttl_days))
  unfolding new_row
  new_row-IsSound (account a) client_ip new title language body h = record {
    sized = refl;
    sealed = h;
    expiring = refl;
    editable = refl;
  }
  new_row-IsSound anonymous client_ip new title language body h =
      let (t, e, _, _) =
        resolve_expiry_anonymous env.now new.expires_in config.anonymous_ttl_days in
      record { sized = refl; sealed = h; expiring = rw e; editable = refl }

  Accepted-IsSound :
      {creator : Creator} {client_ip : Option Text} {new : NewPaste} {d : Db} {row : Paste}
      → Accepted x config env creator client_ip new d row
      → IsSound row
  unfolding seal_body
  Accepted-IsSound {creator = creator} {client_ip = client_ip} {new = new} a =
      subst IsSound (sym a.built) (
        new_row-IsSound creator client_ip new _ _ a.body
          (body_together x env new.content (given_password new.password) a.body a.sealed))

  -- Whatever is asked of it, `create` keeps the tables well formed.
  pub create-WellFormed :
      (creator : Creator) (client_ip : Option Text) (new : NewPaste) (d : Db)
      → WellFormed d
      → WellFormed (create x config env creator client_ip new d).0
  create-WellFormed creator client_ip new d w =
      elim (create_cases x config env creator client_ip new d) [
        | inl (e, refused) ↦ rw refused w
        | inr (row, (accepted, may, found, stored)) ↦ rw stored (
            let v = insert-WellFormed row d (Accepted-IsSound accepted) (fresh row may) w in
            record { unique = v.unique; sound = v.sound; history = v.history })
      ]
    where
      fresh : (row : Paste) → may_insert row d.pastes ≡ true → exists row.id d.pastes ≡ false
      fresh row h = unfold may_insert in false_of_not _ (and_left _ _ h)

  applied-IsSound :
      (paste : Paste) (actor : Actor) (change : EditPaste) (c : Changes)
      → Edited x config env paste actor change c
      → IsSound paste
      → IsSound (applied env.now c paste)
  applied-IsSound paste actor change c e s = record {
    sized = refl;
    sealed = s.sealed;
    expiring = elim (Option-cases paste.account_id) [
      | inr (a, owned) ↦ rw owned
      | inl ownerless ↦
          let (t, set, _, _) =
            resolve_expiry_anonymous env.now change.expires_in config.anonymous_ttl_days in
          rw (ownerless, e.expiring, ownerless, set)
    ];
    editable = s.editable;
  }

  -- An edit of a paste that a read at that time finds keeps the tables well formed, whoever asks
  -- and for whatever.
  pub edit-WellFormed :
      (paste : Paste) (actor : Actor) (client_ip : Option Text) (change : EditPaste) (d : Db)
      → select paste.id env.now d.pastes ≡ some paste
      → WellFormed d
      → WellFormed (edit x config env paste actor client_ip change d).0
  edit-WellFormed paste actor client_ip change d found w =
      elim (edit_cases x config env paste actor client_ip change d) [
        | inl (e, refused) ↦ rw refused w
        | inr (c, (edited, there, stored, _)) ↦ rw stored (committed c edited there)
      ]
    where
      keep :
          (c : Changes)
          → Edited x config env paste actor change c
          → (ps : List Paste) → All (λ p. has_id paste.id p ≡ true → p ≡ paste) ps
          → All (λ p. has_id paste.id p ≡ true → IsSound p → IsSound (applied env.now c p)) ps
      keep c e [] h = tt
      keep c e (p ∷ ps) h = (
        λ hit s.
            let same = h.0 hit in
            subst (λ q. IsSound (applied env.now c q)) (sym same)
              (applied-IsSound paste actor change c e (subst IsSound same s)),
        keep c e ps h.1,
      )

      committed :
          (c : Changes)
          → Edited x config env paste actor change c
          → exists paste.id d.pastes ≡ true
          → WellFormed (
              recorded x config env
                (codes "paste.edit")
                (actor_id actor)
                paste.id
                client_ip
                (commit_edit x config env paste c d))
      committed c e there =
          let f = applied env.now c in
          let v =
            update-WellFormed paste.id f (λ p. refl) d
              (keep c e d.pastes (select_only paste.id env.now d.pastes paste w.unique found)) w in
          unfold commit_edit in
          record {
            unique = v.unique;
            sound = v.sound;
            history = (exists-update paste.id f (λ p. refl) paste.id d.pastes ∙ there, v.history);
          }

  -- A deletion keeps the tables well formed, allowed or not.
  pub delete-WellFormed :
      (paste : Paste) (actor : Actor) (client_ip : Option Text) (d : Db)
      → WellFormed d
      → WellFormed (delete x config env paste actor client_ip d).0
  unfolding delete
  delete-WellFormed paste actor client_ip d w = elim (Bool-cases (may_modify x actor paste)) [
    | inr refused ↦ rw refused w
    | inl allowed ↦ elim (Bool-cases (env.up 0)) [
      | inr down ↦ rw (allowed, down) w
      | inl up ↦
          rw (allowed, up)
            (let v = delete_paste-WellFormed paste.id d w in
              record { unique = v.unique; sound = v.sound; history = v.history })
    ]
  ]

-- A reveal keeps the tables well formed.
pub burn-WellFormed : (env : Env) (id : Text) (d : Db) → WellFormed d → WellFormed (burn env id d).0
unfolding burn
burn-WellFormed env id d w = elim (Option-cases (load env id d)) [
  | inl missing ↦ rw missing w
  | inr (p, found) ↦ rw found (delete_paste-WellFormed id d w)
]

-- So does a counted view.
pub count_view-WellFormed :
    (env : Env) (id : Text) (d : Db) → WellFormed d → WellFormed (count_view env id d)
unfolding count_view
count_view-WellFormed env id d w = elim (Bool-cases (env.up 0)) [
  | inr down ↦ rw down w
  | inl up ↦ rw up (
      update-WellFormed id (λ p. record p { views = p.views + 1 }) (λ p. refl) d
        (everywhere _
          (λ p _ s. record {
            sized = s.sized;
            sealed = s.sealed;
            expiring = s.expiring;
            editable = s.editable;
          })
          d.pastes)
        w)
]

pub delete_all-WellFormed :
    (ids : List Text) (d : Db) → WellFormed d → WellFormed (delete_all ids d)
unfolding delete_all
delete_all-WellFormed [] d w = w
delete_all-WellFormed (id ∷ ids) d w =
    delete_all-WellFormed ids (delete_paste id d) (delete_paste-WellFormed id d w)

All-keep_if {ℓ κ} :
    {A : Type ℓ} (P : A → Type κ) (f : A → Bool) (xs : List A) → All P xs → All P (keep_if f xs)
All-keep_if P f [] h = tt
All-keep_if P f (x ∷ xs) h = elim (Bool-cases (f x)) [
  | inl kept ↦ rw kept (h.0, All-keep_if P f xs h.1)
  | inr gone ↦ rw gone (All-keep_if P f xs h.1)
]

pub prune_revisions-WellFormed : (d : Db) → WellFormed d → WellFormed (prune_revisions d)
unfolding prune_revisions
prune_revisions-WellFormed d w = record {
  unique = w.unique;
  sound = w.sound;
  history = All-keep_if (HasPaste d.pastes) (keeps_revision d.revisions) d.revisions w.history;
}
