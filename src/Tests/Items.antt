-- ===== src/Tests/Items.antt =====
-- An association list with unique keys.
use darshan.Prelude.{
  ℕ, ◌≡◌, ◌==◌, if◌then◌else◌, Option, none, some, List, [], ◌∷◌, ◌++◌, arith, refl, ap, Bool-cases,
  inl, inr,
}

module _ {V : Type 0} where
  abbrev pub find_item : List (ℕ × V) → ℕ → Option V
  find_item [] j = none
  find_item ((k, v) ∷ xs) j = if k == j then some v else find_item xs j

  abbrev pub store_item : List (ℕ × V) → ℕ → V → List (ℕ × V)
  store_item [] j w = []
  store_item ((k, v) ∷ xs) j w = if k == j then (k, w) ∷ xs else (k, v) ∷ store_item xs j w

  abbrev pub delete_item : List (ℕ × V) → ℕ → List (ℕ × V)
  delete_item [] j = []
  delete_item ((k, v) ∷ xs) j = if k == j then xs else (k, v) ∷ delete_item xs j

  abbrev pub IsUnique : List (ℕ × V) → Type 0
  IsUnique [] = Unit
  IsUnique ((k, v) ∷ xs) = (find_item xs k ≡ none) × IsUnique xs

  pub find-append :
      (xs : List (ℕ × V)) (k : ℕ) (v : V) (j : ℕ)
      → find_item xs k ≡ none
      → find_item (xs ++ (k, v) ∷ []) j ≡ (if k == j then some v else find_item xs j)
  find-append [] k v j e = refl
  find-append ((k', v') ∷ xs) k v j e = ground (arith, e, find-append xs k v j)

  pub append-IsUnique :
      (xs : List (ℕ × V)) (k : ℕ) (v : V)
      → find_item xs k ≡ none
      → IsUnique xs
      → IsUnique (xs ++ (k, v) ∷ [])
  append-IsUnique [] k v e u = (refl, tt)
  append-IsUnique ((k', v') ∷ xs) k v e u = (
    ground (arith, e, u.0, find-append xs k v k'),
    append-IsUnique xs k v (ground (arith, e)) u.1,
  )

  pub find-store :
      (xs : List (ℕ × V)) (k : ℕ) (u v : V) (j : ℕ)
      → find_item xs k ≡ some u
      → find_item (store_item xs k v) j ≡ (if k == j then some v else find_item xs j)
  find-store [] k u v j e = cc
  find-store ((k', v') ∷ xs) k u v j e = ground (arith, e, find-store xs k u v j)

  find-store_none :
      (xs : List (ℕ × V)) (k : ℕ) (v : V) (j : ℕ)
      → find_item xs j ≡ none
      → find_item (store_item xs k v) j ≡ none
  find-store_none [] k v j e = refl
  find-store_none ((k', v') ∷ xs) k v j e = ground (arith, e, find-store_none xs k v j)

  pub store-IsUnique :
      (xs : List (ℕ × V)) (k : ℕ) (v : V) → IsUnique xs → IsUnique (store_item xs k v)
  store-IsUnique [] k v u = tt
  store-IsUnique ((k', v') ∷ xs) k v u = elim (Bool-cases (k' == k)) [
    | inl here ↦ rw here u
    | inr on ↦ rw on (find-store_none xs k v k' u.0, store-IsUnique xs k v u.1)
  ]

  pub find-delete :
      (xs : List (ℕ × V)) (k j : ℕ)
      → IsUnique xs
      → find_item (delete_item xs k) j ≡ (if k == j then none else find_item xs j)
  find-delete [] k j u = ground arith
  find-delete ((k', v') ∷ xs) k j u = ground (arith, u.0, find-delete xs k j u.1)

  pub delete-IsUnique : (xs : List (ℕ × V)) (k : ℕ) → IsUnique xs → IsUnique (delete_item xs k)
  delete-IsUnique [] k u = tt
  delete-IsUnique ((k', v') ∷ xs) k u = elim (Bool-cases (k' == k)) [
    | inl here ↦ rw here u.1
    | inr on ↦ rw on (ground (arith, u.0, find-delete xs k k' u.1), delete-IsUnique xs k u.1)
  ]

  -- Where a found item stands.
  abbrev pub Place : List (ℕ × V) → ℕ → V → Type 0
  Place items k u =
      (xs : List (ℕ × V)) × (ys : List (ℕ × V)) × (items ≡ xs ++ (k, u) ∷ ys)
      × ((v : V) → store_item items k v ≡ xs ++ (k, v) ∷ ys)
      × (delete_item items k ≡ xs ++ ys)

  pub item-Place :
      (items : List (ℕ × V)) (k : ℕ) (u : V) → find_item items k ≡ some u → Place items k u
  item-Place [] k u e = absurd cc
  item-Place ((k', v') ∷ items) k u e = elim (Bool-cases (k' == k)) [
    | inl here ↦
        let same : k' ≡ k = ground arith in
        let found : v' ≡ u = ground (arith, e) in
        ([], items, cc, λ v. rw (here, same) refl, rw here refl)
    | inr on ↦
        let (xs, ys, place, stored, gone) = item-Place items k u (rw on at e) in
        ((k', v') ∷ xs, ys, ap ((k', v') ∷◌) place, λ v. rw (on, stored v) refl, rw (on, gone) refl)
  ]
