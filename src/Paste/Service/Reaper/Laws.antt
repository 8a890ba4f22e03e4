-- ===== src/Paste/Service/Reaper/Laws.antt =====
-- A round of the reaper leaves well-formed tables.
use klappstuhl_me.Prelude.{
  ℕ, ◌+◌, ◌*◌, ◌≡◌, refl, ◌∙◌, Bool, true, false, none, List, [], ◌∷◌, map, if◌then◌else◌, leb, All,
}
use klappstuhl_me.Prelude.Int.{at_least_one}
use klappstuhl_me.Text.{Text}
use klappstuhl_me.Paste.Row.{Paste, PasteRevision}
use klappstuhl_me.Paste.Validate.{day_secs}
use klappstuhl_me.Paste.Store.{Db, exists}
use klappstuhl_me.Paste.Store.WellFormed.{WellFormed, IsSound, HasPaste, NoDuplicates}
use klappstuhl_me.Paste.Service.{PasteConfig, Env}
use klappstuhl_me.Paste.Service.Reaper.{
  expired_ids, reap_expired, prune_revisions, forget_ips, if_answered, reap,
}
use klappstuhl_me.Paste.Service.Invariant.{delete_all-WellFormed, prune_revisions-WellFormed}

module _ (f : Paste → Paste) (same : (p : Paste) → (f p).id ≡ p.id)
    (keep : (p : Paste) → IsSound p → IsSound (f p)) where
  exists-map : (j : Text) (ps : List Paste) → exists j (map f ps) ≡ exists j ps
  exists-map j [] = refl
  exists-map j (p ∷ ps) = rw (same p, exists-map j ps)

  NoDuplicates-map : (ps : List Paste) → NoDuplicates ps → NoDuplicates (map f ps)
  NoDuplicates-map [] h = tt
  NoDuplicates-map (p ∷ ps) h = rw (same p) (exists-map p.id ps ∙ h.0, NoDuplicates-map ps h.1)

  All-IsSound-map : (ps : List Paste) → All IsSound ps → All IsSound (map f ps)
  All-IsSound-map [] h = tt
  All-IsSound-map (p ∷ ps) h = (keep p h.0, All-IsSound-map ps h.1)

  All-HasPaste-map :
      (ps : List Paste) (rs : List PasteRevision)
      → All (HasPaste ps) rs
      → All (HasPaste (map f ps)) rs
  All-HasPaste-map ps [] h = tt
  All-HasPaste-map ps (r ∷ rs) h = (exists-map r.paste_id ps ∙ h.0, All-HasPaste-map ps rs h.1)

  map-WellFormed : (d : Db) → WellFormed d → WellFormed (record d { pastes = map f d.pastes })
  map-WellFormed d w = record {
    unique = NoDuplicates-map d.pastes w.unique;
    sound = All-IsSound-map d.pastes w.sound;
    history = All-HasPaste-map d.pastes d.revisions w.history;
  }

forget_ips-WellFormed :
    (config : PasteConfig) (now : ℕ) (d : Db) → WellFormed d → WellFormed (forget_ips config now d)
unfolding forget_ips
forget_ips-WellFormed config now d w =
    map-WellFormed _ (λ p. same (old p) p) (λ p s. keep (old p) p s) d w
  where
    old : Paste → Bool
    old p = leb (p.created_at + at_least_one config.anonymous_ttl_days * day_secs) now

    same : (b : Bool) (p : Paste) → (if b then record p { creator_ip = none } else p).id ≡ p.id
    same true p = refl
    same false p = refl

    keep :
        (b : Bool) (p : Paste)
        → IsSound p
        → IsSound (if b then record p { creator_ip = none } else p)
    keep true p s = record {
      sized = s.sized;
      sealed = s.sealed;
      expiring = s.expiring;
      editable = s.editable;
    }
    keep false p s = s

if_answered-WellFormed :
    (up : Bool) (f : Db → Db) (d : Db)
    → (WellFormed d → WellFormed (f d))
    → WellFormed d
    → WellFormed (if_answered up f d)
if_answered-WellFormed false f d keeps w = w
if_answered-WellFormed true f d keeps w = keeps w

-- A round keeps the tables well formed, whichever of its statements fail.
pub reap-WellFormed :
    (config : PasteConfig) (env : Env) (d : Db) → WellFormed d → WellFormed (reap config env d)
unfolding reap reap_expired
reap-WellFormed config env d w =
    if_answered-WellFormed (env.up 2) (forget_ips config env.now) _
      (forget_ips-WellFormed config env.now _)
      (if_answered-WellFormed (env.up 1) prune_revisions _ (prune_revisions-WellFormed _) (
        if_answered-WellFormed (env.up 0) (reap_expired env.now) d
          (delete_all-WellFormed (expired_ids env.now d.pastes) d) w))
