-- ===== src/Cache/Reads.antt =====
-- What a read of the bounded map after an insertion or a removal says of the map before.
use klappstuhl_me.Prelude.{◌≡◌, ◌≢◌, sym, ◌∙◌, ◌⊎◌, inl, inr, some, some_inj}
use klappstuhl_me.Cache.{Cache}

module _ {K V : Type 0} (c : Cache K V) (decide : (k j : K) → (k ≡ j) ⊎ (k ≢ j)) where
  pub get-remove_some :
      (k j : K) (t : c.Table) (v : V)
      → c.get j (c.remove k t) ≡ some v
      → (k ≢ j) × (c.get j t ≡ some v)
  get-remove_some k j t v h = elim (decide k j) [
    | inl same ↦ cc (h, c.get-remove_self k t, same)
    | inr other ↦ (other, sym (c.get-remove_other k j t other) ∙ h)
  ]

  pub get-insert_some :
      (k j : K) (u : V) (t : c.Table) (v : V)
      → c.get j (c.insert k u t) ≡ some v
      → ((k ≡ j) × (u ≡ v)) ⊎ (c.get j t ≡ some v)
  get-insert_some k j u t v h = elim (decide k j) [
    | inl same ↦ inl (same, some_inj (cc (h, c.get-insert_self k u t, same)))
    | inr other ↦ elim (c.get-insert_other k j u t other) [
      | inl kept ↦ inr (sym kept ∙ h)
      | inr evicted ↦ cc (h, evicted)
    ]
  ]
