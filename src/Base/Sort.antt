-- ===== src/Base/Sort.antt =====
-- ORDER BY: a stable insertion sort, and the laws that keyset pagination needs of it.
use Prim.Native.Nat.{suc}
use mathlib.Core.Path.{◌≡◌, refl, ap, ◌∙◌, sym}
use mathlib.Core.Logic.{inl, inr}
use mathlib.Core.List.{List, [], ◌∷◌, ◌++◌, Perm}
use mathlib.Core.List.Perm
use mathlib.Core.Bool.{Bool, true, false}
use native.Mathlib.Omega.{arith}
use webhook_delivery_service.Base.Tests.{if◌then◌else◌, Bool-cases}
use webhook_delivery_service.Base.Lists.{length, select, All, All-select}

module _ {ℓ} {A : Type ℓ} (before : A → A → Bool) where
  unfoldable pub insert : A → List A → List A
  insert x [] = x ∷ []
  insert x (y ∷ ys) = if before y x then y ∷ insert x ys else x ∷ y ∷ ys

  unfoldable pub order_by : List A → List A
  unfolding insert
  order_by [] = []
  order_by (x ∷ xs) = insert x (order_by xs)

  insert-perm : (x : A) (ys : List A) → Perm (insert x ys) (x ∷ ys)
  unfolding insert
  insert-perm x [] = Perm.refl (x ∷ [])
  insert-perm x (y ∷ ys) = elim (Bool-cases (before y x)) [
    | inl hit ↦ rw hit (Perm.trans (Perm.cons y (insert-perm x ys)) (Perm.swap x y ys))
    | inr miss ↦ rw miss (Perm.refl (x ∷ y ∷ ys))
  ]

  -- Sorting loses and makes up no row.
  pub order_by-perm : (xs : List A) → Perm (order_by xs) xs
  unfolding order_by
  order_by-perm [] = Perm.refl []
  order_by-perm (x ∷ xs) = Perm.trans (insert-perm x (order_by xs)) (Perm.cons x (order_by-perm xs))

  length-insert : (x : A) (ys : List A) → length (insert x ys) ≡ suc (length ys)
  unfolding insert
  length-insert x [] = refl
  length-insert x (y ∷ ys) = ground (arith, length-insert x ys)

  pub length-order_by : (xs : List A) → length (order_by xs) ≡ length xs
  unfolding order_by
  length-order_by [] = refl
  length-order_by (x ∷ xs) = omega (arith, length-insert x (order_by xs), length-order_by xs)

  -- Each row comes before all later ones.
  abbrev pub IsSorted : List A → Type 0
  IsSorted [] = Unit
  IsSorted (x ∷ xs) = All (λ y. before x y ≡ true) xs × IsSorted xs

module _ {ℓ κ} {A : Type ℓ} (P : A → Type κ) (c : A) where
  All-middle : (pre post : List A) → All P (pre ++ c ∷ post) → P c
  All-middle [] post h = h.0
  All-middle (x ∷ pre) post h = All-middle pre post h.1

module _ {ℓ κ} {A : Type ℓ} (before : A → A → Bool) (P : A → Type κ) where
  insert-All : (x : A) (ys : List A) → P x → All P ys → All P (insert before x ys)
  unfolding insert
  insert-All x [] px h = (px, tt)
  insert-All x (y ∷ ys) px h = elim (Bool-cases (before y x)) [
    | inl hit ↦ rw hit (h.0, insert-All x ys px h.1)
    | inr miss ↦ rw miss (px, (h.0, h.1))
  ]

  pub order_by-All : (xs : List A) → All P xs → All P (order_by before xs)
  unfolding order_by
  order_by-All [] h = tt
  order_by-All (x ∷ xs) h = insert-All x (order_by before xs) h.0 (order_by-All xs h.1)

  All-of_insert : (x : A) (ys : List A) → All P (insert before x ys) → P x × All P ys
  unfolding insert
  All-of_insert x [] h = h
  All-of_insert x (y ∷ ys) h = elim (Bool-cases (before y x)) [
    | inl swap ↦
        let g = rw swap at h in let rest = All-of_insert x ys g.1 in (rest.0, (g.0, rest.1))
    | inr stay ↦ rw stay at h
  ]

  pub All-of_order_by : (xs : List A) → All P (order_by before xs) → All P xs
  unfolding order_by
  All-of_order_by [] h = tt
  All-of_order_by (x ∷ xs) h =
      let rest = All-of_insert x (order_by before xs) h in (rest.0, All-of_order_by xs rest.1)

module _ {ℓ} {A : Type ℓ} (before : A → A → Bool)
    (trans : (x y z : A) → before x y ≡ true → before y z ≡ true → before x z ≡ true)
    (asym : (x y : A) → before x y ≡ true → before y x ≡ false) where
  -- `x` is comparable with each row.
  abbrev pub Comparable : A → List A → Type 0
  Comparable x = All (λ y. before y x ≡ false → before x y ≡ true)

  abbrev pub AllComparable : List A → Type 0
  AllComparable [] = Unit
  AllComparable (x ∷ xs) = Comparable x xs × AllComparable xs

  irreflexive : (x : A) → before x x ≡ false
  irreflexive x = elim (Bool-cases (before x x)) [ inl hit ↦ asym x x hit | inr miss ↦ miss ]

  after_all :
      (x y : A) (ys : List A)
      → before x y ≡ true
      → All (λ z. before y z ≡ true) ys
      → All (λ z. before x z ≡ true) ys
  after_all x y [] h k = tt
  after_all x y (z ∷ zs) h k = (trans x y z h k.0, after_all x y zs h k.1)

  insert-IsSorted :
      (x : A) (ys : List A)
      → IsSorted before ys
      → Comparable x ys
      → IsSorted before (insert before x ys)
  unfolding insert
  insert-IsSorted x [] s c = (tt, tt)
  insert-IsSorted x (y ∷ ys) s c = elim (Bool-cases (before y x)) [
    | inl hit ↦
        rw hit
          (insert-All before (λ z. before y z ≡ true) x ys hit s.0, insert-IsSorted x ys s.1 c.1)
    | inr miss ↦ rw miss ((c.0 miss, after_all x y ys (c.0 miss) s.0), (s.0, s.1))
  ]

  insert-front :
      (x : A) (zs : List A) → All (λ z. before x z ≡ true) zs → insert before x zs ≡ x ∷ zs
  unfolding insert
  insert-front x [] h = refl
  insert-front x (z ∷ zs) h = rw (asym x z h.0)

  select-insert :
      (p : A → Bool) (x : A) (ys : List A)
      → IsSorted before ys
      → Comparable x ys
      → select p (insert before x ys) ≡ (if p x then insert before x (select p ys) else select p ys)
  unfolding insert
  select-insert p x [] s c = ground arith
  select-insert p x (y ∷ ys) s c = elim (Bool-cases (before y x)) [
    | inl hit ↦ ground (arith, select-insert p x ys s.1 c.1)
    | inr miss ↦
        let front = insert-front x (select p (y ∷ ys)) (
          All-select (λ z. before x z ≡ true) p (y ∷ ys)
            (c.0 miss, after_all x y ys (c.0 miss) s.0)) in
        rw miss (ap (λ l. if p x then l else select p (y ∷ ys)) (sym front))
  ]

  pub order_by-IsSorted : (xs : List A) → AllComparable xs → IsSorted before (order_by before xs)
  unfolding order_by
  order_by-IsSorted [] c = tt
  order_by-IsSorted (x ∷ xs) c =
      insert-IsSorted x (order_by before xs) (order_by-IsSorted xs c.1)
        (order_by-All before (λ y. before y x ≡ false → before x y ≡ true) xs c.0)

  -- A WHERE clause and ORDER BY commute.
  pub select-order_by :
      (p : A → Bool) (xs : List A)
      → AllComparable xs
      → select p (order_by before xs) ≡ order_by before (select p xs)
  unfolding order_by
  select-order_by p [] c = refl
  select-order_by p (x ∷ xs) c =
      let step =
        select-insert p x (order_by before xs) (order_by-IsSorted xs c.1)
          (order_by-All before (λ y. before y x ≡ false → before x y ≡ true) xs c.0) in
      elim (Bool-cases (p x)) [
        | inl hit ↦ step ∙ rw (hit, select-order_by p xs c.1) refl
        | inr miss ↦ step ∙ rw (miss, select-order_by p xs c.1) refl
      ]

  select-all : (p : A → Bool) (xs : List A) → All (λ x. p x ≡ true) xs → select p xs ≡ xs
  select-all p [] h = refl
  select-all p (x ∷ xs) h = rw (h.0, select-all p xs h.1)

  -- In a sorted list the rows after one of them are the rest of the list.
  pub select-after :
      (c : A) (pre post : List A)
      → IsSorted before (pre ++ c ∷ post)
      → select (before c) (pre ++ c ∷ post) ≡ post
  select-after c [] post s = rw (irreflexive c) (select-all (before c) post s.0)
  select-after c (x ∷ pre) post s =
      rw (asym x c (All-middle (λ y. before x y ≡ true) c pre post s.0))
        (select-after c pre post s.1)
