-- ===== src/Base/Rows.antt =====
-- Tables with a key: what a unique constraint gives to the queries that look a row up by it.
use Prim.Native.Nat.{ℕ, ◌≤◌}
use mathlib.Core.Path.{◌≡◌, refl, sym}
use mathlib.Core.Logic.{inl, inr}
use mathlib.Core.List.{List, [], ◌∷◌, map}
use mathlib.Core.Bool.{Bool, true, false, ◌&&◌}
use mathlib.Core.Option.{Option, none, some}
use native.Mathlib.Omega.{arith}
use webhook_delivery_service.Base.Tests.{if◌then◌else◌, Bool-cases, ◌==◌, ==→eq, ==_refl}
use webhook_delivery_service.Base.Lists.{
  select, All, any, scalar_one_or_none, length, scalar-All, scalar-select,
}

module _ {ℓ} {A : Type ℓ} where
  -- No two rows clash.
  abbrev pub Distinct : (A → A → Bool) → List A → Type 0
  Distinct clash [] = Unit
  Distinct clash (x ∷ xs) = (any (clash x) xs ≡ false) × Distinct clash xs

  pub any_mono :
      (p q : A → Bool)
      → ((x : A) → q x ≡ true → p x ≡ true)
      → (xs : List A) → any p xs ≡ false
      → any q xs ≡ false
  any_mono p q f [] h = refl
  any_mono p q f (x ∷ xs) h = ground (arith, any_mono p q f xs, f x)

  pub Distinct-mono :
      (c d : A → A → Bool)
      → ((x y : A) → d x y ≡ true → c x y ≡ true)
      → (xs : List A) → Distinct c xs
      → Distinct d xs
  Distinct-mono c d f [] h = tt
  Distinct-mono c d f (x ∷ xs) h = (any_mono (c x) (d x) (f x) xs h.0, Distinct-mono c d f xs h.1)

  pub any-map :
      (p : A → Bool) (f : A → A)
      → ((x : A) → p (f x) ≡ p x)
      → (xs : List A) → any p (map f xs) ≡ any p xs
  any-map p f same [] = refl
  any-map p f same (x ∷ xs) = rw (same x, any-map p f same xs)

  pub any_cons : (p : A → Bool) (x : A) (xs : List A) → any p xs ≡ true → any p (x ∷ xs) ≡ true
  any_cons p x xs h = ground arith

  pub any_here : (p : A → Bool) (x : A) (xs : List A) → p x ≡ true → any p (x ∷ xs) ≡ true
  any_here p x xs h = ground arith

  pub select-none :
      (p q : A → Bool) (xs : List A) → any p xs ≡ false → select (λ x. p x && q x) xs ≡ []
  select-none p q [] h = refl
  select-none p q (x ∷ xs) h = ground (arith, select-none p q xs)

  pub select-nil : (p : A → Bool) (xs : List A) → any p xs ≡ false → select p xs ≡ []
  select-nil p [] h = refl
  select-nil p (x ∷ xs) h = ground (arith, select-nil p xs)

module _ {ℓ} {A : Type ℓ} (key : A → ℕ) where
  abbrev pub has_key : ℕ → A → Bool
  has_key k x = key x == k

  abbrev pub same_id : A → A → Bool
  same_id x y = key x == key y

  -- The row with a key.
  abbrev pub lookup : ℕ → List A → Option A
  lookup k xs = scalar_one_or_none (select (has_key k) xs)

  any-key :
      (k : ℕ) (x : A) (xs : List A)
      → (key x == k) ≡ true
      → any (same_id x) xs ≡ false
      → any (has_key k) xs ≡ false
  any-key k x xs e h = any_mono (same_id x) (has_key k) (λ y p. ground arith) xs h

  -- With unique keys a query for a key and a condition finds the row with the key, if it meets the
  -- condition.
  pub select-lookup :
      (k : ℕ) (q : A → Bool) (xs : List A) {r : A}
      → Distinct same_id xs
      → lookup k xs ≡ some r
      → scalar_one_or_none (select (λ x. key x == k && q x) xs) ≡ (if q r then some r else none)
  select-lookup k q [] d h = cc
  select-lookup k q (x ∷ xs) {r} d h = elim (Bool-cases (key x == k)) [
    | inl hit ↦ ground (arith, select-none (has_key k) q xs (any-key k x xs hit d.0))
    | inr miss ↦ rw miss (select-lookup k q xs d.1 (rw miss at h))
  ]

  -- A missing key finds nothing, whatever the condition.
  pub select-missing :
      (k : ℕ) (q : A → Bool) (xs : List A)
      → lookup k xs ≡ none
      → scalar_one_or_none (select (λ x. key x == k && q x) xs) ≡ none
  select-missing k q [] h = refl
  select-missing k q (x ∷ xs) h = ground (arith, select-missing k q xs)

  -- The query never has a second row.
  pub select-length :
      (k : ℕ) (q : A → Bool) (xs : List A)
      → Distinct same_id xs
      → length (select (λ x. key x == k && q x) xs) ≤ 1
  select-length k q [] d = omega arith
  select-length k q (x ∷ xs) d = elim (Bool-cases (key x == k)) [
    | inl hit ↦ ground (arith, select-none (has_key k) q xs (any-key k x xs hit d.0))
    | inr miss ↦ rw miss (select-length k q xs d.1)
  ]

  -- What a conditional query by key finds is the row with the key.
  pub lookup-select :
      (k : ℕ) (q : A → Bool) (xs : List A) {r : A}
      → Distinct same_id xs
      → scalar_one_or_none (select (λ x. key x == k && q x) xs) ≡ some r
      → lookup k xs ≡ some r
  lookup-select k q [] d h = cc
  lookup-select k q (x ∷ xs) d h = elim (Bool-cases (key x == k)) [
    | inl hit ↦ ground (arith, select-none (has_key k) q xs (any-key k x xs hit d.0))
    | inr miss ↦ rw miss (lookup-select k q xs d.1 (rw miss at h))
  ]

  -- UPDATE … WHERE id = row.id.
  abbrev pub replace : A → List A → List A
  replace d xs = map (λ x. if key x == key d then d else x) xs

  pub key-replace : (d x : A) → key (if key x == key d then d else x) ≡ key x
  key-replace d x = elim (Bool-cases (key x == key d)) [
    | inl hit ↦ rw hit (sym (==→eq (key x) (key d) hit))
    | inr miss ↦ rw miss
  ]

  pub lookup-replace_self :
      (d : A) (xs : List A) {r : A}
      → lookup (key d) xs ≡ some r
      → lookup (key d) (replace d xs) ≡ some d
  lookup-replace_self d [] h = cc
  lookup-replace_self d (x ∷ xs) {r} h = elim (Bool-cases (key x == key d)) [
    | inl hit ↦ rw (hit, ==_refl (key d))
    | inr miss ↦ rw (miss, miss) (lookup-replace_self d xs (rw miss at h))
  ]

  pub lookup-replace_ne :
      (k : ℕ) (d : A) (xs : List A) → (key d == k) ≡ false → lookup k (replace d xs) ≡ lookup k xs
  lookup-replace_ne k d [] h = refl
  lookup-replace_ne k d (x ∷ xs) h = ground (arith, lookup-replace_ne k d xs)

  any-replace_keys :
      (d x x' : A)
      → key x' ≡ key x
      → (xs : List A) → any (same_id x) xs ≡ false
      → any (same_id x') (replace d xs) ≡ false
  any-replace_keys d x x' e [] h = refl
  any-replace_keys d x x' e (y ∷ ys) h =
      ground (arith, key-replace d y, any-replace_keys d x x' e ys)

  pub Distinct-replace :
      (d : A) (xs : List A) → Distinct same_id xs → Distinct same_id (replace d xs)
  Distinct-replace d [] h = tt
  Distinct-replace d (x ∷ xs) h = (
    any-replace_keys d x (if key x == key d then d else x) (key-replace d x) xs h.0,
    Distinct-replace d xs h.1,
  )

  pub All-replace {κ} :
      (P : A → Type κ) (d : A) (xs : List A) → All P xs → P d → All P (replace d xs)
  All-replace P d [] h p = tt
  All-replace P d (x ∷ xs) h p = elim (Bool-cases (key x == key d)) [
    | inl hit ↦ rw hit (p, All-replace P d xs h.1 p)
    | inr miss ↦ rw miss (h.0, All-replace P d xs h.1 p)
  ]

  -- A key that no row has is replaced nowhere.
  pub replace_absent : (d : A) (xs : List A) → any (has_key (key d)) xs ≡ false → replace d xs ≡ xs
  replace_absent d [] h = refl
  replace_absent d (x ∷ xs) h = ground (arith, replace_absent d xs)

  -- With unique keys only the row with the key is replaced.
  pub any-replace :
      (p : A → Bool) (d : A) (xs : List A) {r : A}
      → Distinct same_id xs
      → lookup (key d) xs ≡ some r
      → p d ≡ p r
      → any p (replace d xs) ≡ any p xs
  any-replace p d [] distinct h same = cc
  any-replace p d (x ∷ xs) distinct h same = elim (Bool-cases (key x == key d)) [
    | inl hit ↦ ground (arith, replace_absent d xs (any-key (key d) x xs hit distinct.0))
    | inr miss ↦ rw (miss, any-replace p d xs distinct.1 (rw miss at h) same)
  ]

  pub All-lookup {κ} :
      (P : A → Type κ) (k : ℕ) (xs : List A) {r : A} → All P xs → lookup k xs ≡ some r → P r
  All-lookup P k xs h e = scalar-All P (has_key k) xs h e

  pub key-lookup : (k : ℕ) (xs : List A) {r : A} → lookup k xs ≡ some r → key r ≡ k
  key-lookup k xs {r} e = ==→eq (key r) k (scalar-select (has_key k) xs e)

module _ {ℓ} {A : Type ℓ} where
  pub any-scalar :
      (p : A → Bool) (xs : List A) {x : A}
      → scalar_one_or_none (select p xs) ≡ some x
      → any p xs ≡ true
  any-scalar p [] h = cc
  any-scalar p (y ∷ xs) h = elim (Bool-cases (p y)) [
    | inl hit ↦ rw hit
    | inr miss ↦ rw miss (any-scalar p xs (rw miss at h))
  ]

  All-any_cons :
      (r : A → A → Bool) (y : A) (ys xs : List A)
      → All (λ x. any (r x) ys ≡ true) xs
      → All (λ x. any (r x) (y ∷ ys) ≡ true) xs
  All-any_cons r y ys [] h = tt
  All-any_cons r y ys (x ∷ xs) h = (any_cons (r x) y ys h.0, All-any_cons r y ys xs h.1)

  -- Every row of a table is in it.
  pub All-any :
      (r : A → A → Bool)
      → ((x : A) → r x x ≡ true)
      → (xs : List A) → All (λ x. any (r x) xs ≡ true) xs
  All-any r self [] = tt
  All-any r self (x ∷ xs) =
      (any_here (r x) x xs (self x), All-any_cons r x xs xs (All-any r self xs))
