-- ===== src/Cache.antt =====
-- quick_cache::sync::Cache, a library that the program calls: a bounded map. An insertion may
-- evict another key, never invent or change its value.
pub mod Reads
use klappstuhl_me.Prelude.{ℕ, ◌≡◌, ◌≢◌, ◌⊎◌, inl, Option, none, some, if◌then◌else◌, ◌==◌, arith}
use klappstuhl_me.Text.{Text, text_eq}
use klappstuhl_me.Text.Equality.{text_eq_refl, text_eq_ne}

pub record Cache (K V : Type 0) : Type 1 where
  pub Table : Type 0
  pub get : K → Table → Option V
  pub insert : K → V → Table → Table
  pub remove : K → Table → Table
  pub get-insert_self : (k : K) (v : V) (t : Table) → get k (insert k v t) ≡ some v
  pub get-insert_other :
      (k j : K) (v : V) (t : Table)
      → k ≢ j
      → (get j (insert k v t) ≡ get j t) ⊎ (get j (insert k v t) ≡ none)
  pub get-remove_self : (k : K) (t : Table) → get k (remove k t) ≡ none
  pub get-remove_other : (k j : K) (t : Table) → k ≢ j → get j (remove k t) ≡ get j t

-- A cache that never evicts, over numbers as keys: the laws can be met.
module _ {V : Type 0} where
  abbrev put : ℕ → Option V → (ℕ → Option V) → ℕ → Option V
  put k v t j = if k == j then v else t j

  pub put_self : (k : ℕ) (v : Option V) (t : ℕ → Option V) → put k v t k ≡ v
  put_self k v t = ground arith

  pub put_other : (k j : ℕ) (v : Option V) (t : ℕ → Option V) → k ≢ j → put k v t j ≡ t j
  put_other k j v t h = ground arith

abbrev pub unbounded : (V : Type 0) → Cache ℕ V
unbounded V = record {
  Table = ℕ → Option V;
  get = λ k t. t k;
  insert = λ k v t. put k (some v) t;
  remove = λ k t. put k none t;
  get-insert_self = λ k v t. put_self k (some v) t;
  get-insert_other = λ k j v t h. inl (put_other k j (some v) t h);
  get-remove_self = λ k t. put_self k none t;
  get-remove_other = λ k j t h. put_other k j none t h;
}

-- The same over texts as keys.
module _ {V : Type 0} where
  abbrev put_text : Text → Option V → (Text → Option V) → Text → Option V
  put_text k v t j = if text_eq k j then v else t j

  pub put_text_self : (k : Text) (v : Option V) (t : Text → Option V) → put_text k v t k ≡ v
  put_text_self k v t = rw (text_eq_refl k)

  pub put_text_other :
      (k j : Text) (v : Option V) (t : Text → Option V) → k ≢ j → put_text k v t j ≡ t j
  put_text_other k j v t h = rw (text_eq_ne k j h)

abbrev pub unbounded_texts : (V : Type 0) → Cache Text V
unbounded_texts V = record {
  Table = Text → Option V;
  get = λ k t. t k;
  insert = λ k v t. put_text k (some v) t;
  remove = λ k t. put_text k none t;
  get-insert_self = λ k v t. put_text_self k (some v) t;
  get-insert_other = λ k j v t h. inl (put_text_other k j (some v) t h);
  get-remove_self = λ k t. put_text_self k none t;
  get-remove_other = λ k j t h. put_text_other k j none t h;
}
