-- ===== src/Prelude/Hash.antt =====
-- The hash table of the vendored uthash.h, as the runtime's code calls it. The library is not
-- modelled: a table is any type with these operations and laws, which state its documented
-- behaviour for a table whose keys are unique. Keys are record identifiers. A program's structure is
-- itself the item, so a write through the pointer that HASH_FIND returned is `store`.
use Prim.Native.Nat.{ℕ, ◌+◌, ◌≤◌}
use mathlib.Core.Path.{◌≡◌}
use mathlib.Core.Option.{Option, none, some}
use mathlib.Core.List.{List, [], ◌∷◌, ◌++◌}
use native.Mathlib.Omega.{arith}
use darshan.Prelude.Tests.{◌==◌, if◌then◌else◌}

pub record Uthash (V T : Type 0) : Type 0 where
  pub empty : T
  -- HASH_FIND, HASH_ADD, HASH_DELETE and the order of HASH_ITER
  pub find : T → ℕ → Option V
  pub add : T → ℕ → V → T
  pub store : T → ℕ → V → T
  pub delete : T → ℕ → T
  -- A write of an item whose key, a part of memory that HASH_ADD keeps a pointer to, was freed before:
  -- of the table after it nothing is known.
  pub store_freed : T → ℕ → V → T
  pub iter : T → List (ℕ × V)
  pub find-empty : (k : ℕ) → find empty k ≡ none
  pub iter-empty : iter empty ≡ []
  pub find-add :
      (t : T) (k : ℕ) (v : V) (j : ℕ)
      → find t k ≡ none
      → find (add t k v) j ≡ (if k == j then some v else find t j)
  pub iter-add :
      (t : T) (k : ℕ) (v : V) → find t k ≡ none → iter (add t k v) ≡ iter t ++ (k, v) ∷ []
  pub find-store :
      (t : T) (k : ℕ) (u v : V) (j : ℕ)
      → find t k ≡ some u
      → find (store t k v) j ≡ (if k == j then some v else find t j)
  pub find-delete : (t : T) (k j : ℕ) → find (delete t k) j ≡ (if k == j then none else find t j)
  -- A found item stands at one place of the iteration; writing and deleting act there only.
  pub place :
      (t : T) (k : ℕ) (u : V)
      → find t k ≡ some u
      → (xs : List (ℕ × V)) × (ys : List (ℕ × V)) × (iter t ≡ xs ++ (k, u) ∷ ys)
        × ((v : V) → iter (store t k v) ≡ xs ++ (k, v) ∷ ys)
        × (iter (delete t k) ≡ xs ++ ys)

-- A sum over the items of a table.
unfoldable pub total {ℓ} : {V : Type ℓ} → (V → ℕ) → List (ℕ × V) → ℕ
total f [] = 0
total f ((k, v) ∷ xs) = f v + total f xs

module _ {ℓ} {V : Type ℓ} (f : V → ℕ) where
  pub total-append : (xs ys : List (ℕ × V)) → total f (xs ++ ys) ≡ total f xs + total f ys
  unfolding total
  total-append [] ys = omega arith
  total-append ((k, v) ∷ xs) ys = omega (arith, total-append xs ys)

  total-middle :
      (xs ys : List (ℕ × V)) (k : ℕ) (v : V)
      → total f (xs ++ (k, v) ∷ ys) ≡ f v + (total f xs + total f ys)
  unfolding total
  total-middle xs ys k v = omega (arith, total-append xs ((k, v) ∷ ys))

module _ {V T : Type 0} (h : Uthash V T) (f : V → ℕ) where
  pub total-add :
      (t : T) (k : ℕ) (v : V)
      → h.find t k ≡ none
      → total f (h.iter (h.add t k v)) ≡ total f (h.iter t) + f v
  unfolding total
  total-add t k v e =
      rw (h.iter-add t k v e) (omega (arith, total-append f (h.iter t) ((k, v) ∷ [])))

  pub total-store :
      (t : T) (k : ℕ) (u v : V)
      → h.find t k ≡ some u
      → total f (h.iter (h.store t k v)) + f u ≡ total f (h.iter t) + f v
  total-store t k u v e =
      let (xs, ys, here, stored, gone) = h.place t k u e in
      rw (here, stored v) (omega (arith, total-middle f xs ys k u, total-middle f xs ys k v))

  pub total-find : (t : T) (k : ℕ) (u : V) → h.find t k ≡ some u → f u ≤ total f (h.iter t)
  total-find t k u e =
      let (xs, ys, here, stored, gone) = h.place t k u e in
      rw here (omega (arith, total-middle f xs ys k u))

  pub total-delete :
      (t : T) (k : ℕ) (u : V)
      → h.find t k ≡ some u
      → total f (h.iter (h.delete t k)) + f u ≡ total f (h.iter t)
  total-delete t k u e =
      let (xs, ys, here, stored, gone) = h.place t k u e in
      rw (here, gone) (omega (arith, total-middle f xs ys k u, total-append f xs ys))

-- A property of every item of a table.
abbrev pub AllItems : {V : Type 0} → (ℕ → V → Type 0) → List (ℕ × V) → Type 0
AllItems P [] = Unit
AllItems P ((k, v) ∷ xs) = P k v × AllItems P xs

module _ {V : Type 0} (P : ℕ → V → Type 0) where
  AllItems-append : (xs ys : List (ℕ × V)) → AllItems P xs → AllItems P ys → AllItems P (xs ++ ys)
  AllItems-append [] ys p q = q
  AllItems-append ((k, v) ∷ xs) ys p q = (p.0, AllItems-append xs ys p.1 q)

  AllItems-split : (xs ys : List (ℕ × V)) → AllItems P (xs ++ ys) → AllItems P xs × AllItems P ys
  AllItems-split [] ys p = (tt, p)
  AllItems-split ((k, v) ∷ xs) ys p = let (q, r) = AllItems-split xs ys p.1 in ((p.0, q), r)

module _ {V T : Type 0} (h : Uthash V T) (P : ℕ → V → Type 0) (t : T) (k : ℕ) where
  pub AllItems-find : (u : V) → h.find t k ≡ some u → AllItems P (h.iter t) → P k u
  AllItems-find u e p =
      let (xs, ys, here, stored, gone) = h.place t k u e in
      (AllItems-split P xs ((k, u) ∷ ys) (rw here at p)).1.0

  pub AllItems-add :
      (v : V)
      → h.find t k ≡ none
      → AllItems P (h.iter t)
      → P k v
      → AllItems P (h.iter (h.add t k v))
  AllItems-add v e p q =
      rw (h.iter-add t k v e) (AllItems-append P (h.iter t) ((k, v) ∷ []) p (q, tt))

  pub AllItems-store :
      (u v : V)
      → h.find t k ≡ some u
      → AllItems P (h.iter t)
      → P k v
      → AllItems P (h.iter (h.store t k v))
  AllItems-store u v e p q =
      let (xs, ys, here, stored, gone) = h.place t k u e in
      let (a, b) = AllItems-split P xs ((k, u) ∷ ys) (rw here at p) in
      rw (stored v) (AllItems-append P xs ((k, v) ∷ ys) a (q, b.1))

  pub AllItems-delete :
      (u : V) → h.find t k ≡ some u → AllItems P (h.iter t) → AllItems P (h.iter (h.delete t k))
  AllItems-delete u e p =
      let (xs, ys, here, stored, gone) = h.place t k u e in
      let (a, b) = AllItems-split P xs ((k, u) ∷ ys) (rw here at p) in
      rw gone (AllItems-append P xs ys a b.1)
