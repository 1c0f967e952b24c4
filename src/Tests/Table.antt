-- ===== src/Tests/Table.antt =====
-- A hash table that keeps the laws of uthash.h: an association list with unique keys, in the order of
-- insertion.
use darshan.Prelude.{ℕ, ◌≡◌, Option, none, some, List, [], ◌∷◌, ◌++◌, refl}
use darshan.Prelude.Hash.{Uthash}
use darshan.Tests.Items.{
  find_item, store_item, delete_item, IsUnique, find-append, append-IsUnique, find-store,
  store-IsUnique, find-delete, delete-IsUnique, item-Place,
}

pub record Table (V : Type 0) : Type 0 where
  pub items : List (ℕ × V)
  pub unique : IsUnique items

module _ {V : Type 0} where
  -- A key that is present is not added again.
  abbrev pub add_to :
      (t : Table V) (k : ℕ) (v : V) (found : Option V) → find_item t.items k ≡ found → Table V
  add_to t k v none e = record {
    items = t.items ++ (k, v) ∷ [];
    unique = append-IsUnique t.items k v e t.unique;
  }
  add_to t k v (some u) e = t

  pub add_to-items :
      (t : Table V) (k : ℕ) (v : V) (found : Option V) (e : find_item t.items k ≡ found)
      → found ≡ none
      → (add_to t k v found e).items ≡ t.items ++ (k, v) ∷ []
  add_to-items t k v none e q = refl
  add_to-items t k v (some u) e q = absurd cc

  abbrev pub table_add : Table V → ℕ → V → Table V
  table_add t k v = add_to t k v (find_item t.items k) refl

abbrev pub list_uthash : (V : Type 0) → Uthash V (Table V)
list_uthash V = record {
  empty = record { items = []; unique = tt };
  find = λ t k. find_item t.items k;
  add = table_add;
  store_freed = λ t k v. t;
  store = λ t k v. record {
    items = store_item t.items k v;
    unique = store-IsUnique t.items k v t.unique;
  };
  delete =
      λ t k. record { items = delete_item t.items k; unique = delete-IsUnique t.items k t.unique };
  iter = λ t. t.items;
  find-empty = λ k. refl;
  iter-empty = refl;
  find-add = λ t k v j e.
      rw (add_to-items t k v (find_item t.items k) refl e) (find-append t.items k v j e);
  iter-add = λ t k v e. add_to-items t k v (find_item t.items k) refl e;
  find-store = λ t k u v j e. find-store t.items k u v j e;
  find-delete = λ t k j. find-delete t.items k j t.unique;
  place = λ t k u e. item-Place t.items k u e;
}
