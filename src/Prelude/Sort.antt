-- ===== src/Prelude/Sort.antt =====
-- `Array.prototype.sort` is stable: an insertion sort that keeps the order of equal elements.
use Prim.Native.Nat.{ℕ, ◌≤◌}
use mathlib.Core.Path.{◌≡◌, ap}
use mathlib.Core.Bool.{Bool}
use mathlib.Core.Logic.{inl, inr}
use mathlib.Core.Option.{Option, none, some}
use mathlib.Core.List.{List, [], ◌∷◌}
use native.Mathlib.Omega.{arith}
use circuit_agent.Prelude.Tests.{ltb, tests, if◌then◌else◌, Bool-cases}
use circuit_agent.Prelude.Lists.{All}

abbrev pub head? {ℓ} : {A : Type ℓ} → List A → Option A
head? [] = none
head? (x ∷ xs) = some x

module _ {ℓ} {A : Type ℓ} (before : A → A → Bool) where
  unfoldable pub insert_sorted : A → List A → List A
  insert_sorted x [] = x ∷ []
  insert_sorted x (y ∷ ys) =
      let later = y ∷ insert_sorted x ys in if before y x then later else x ∷ y ∷ ys

  unfoldable pub sort : List A → List A
  sort [] = []
  sort (x ∷ xs) = insert_sorted x (sort xs)

module _ {ℓ κ} {A : Type ℓ} (before : A → A → Bool) (P : A → Type κ) where
  pub All-insert_sorted : (x : A) (xs : List A) → P x → All P xs → All P (insert_sorted before x xs)
  unfolding insert_sorted
  All-insert_sorted x [] h hs = (h, tt)
  All-insert_sorted x (y ∷ ys) h hs = elim (Bool-cases (before y x)) [
    | inl b ↦ rw b (hs.0, All-insert_sorted x ys h hs.1)
    | inr b ↦ rw b (h, hs)
  ]

  pub All-sort : (xs : List A) → All P xs → All P (sort before xs)
  unfolding sort
  All-sort [] h = tt
  All-sort (x ∷ xs) h = All-insert_sorted x (sort before xs) h.0 (All-sort xs h.1)

  All-of_insert_sorted : (x : A) (xs : List A) → All P (insert_sorted before x xs) → P x × All P xs
  unfolding insert_sorted
  All-of_insert_sorted x [] h = h
  All-of_insert_sorted x (y ∷ ys) h = elim (Bool-cases (before y x)) [
    | inl b ↦
        let (hy, later) = rw b at h in
        let (hx, rest) = All-of_insert_sorted x ys later in (hx, (hy, rest))
    | inr b ↦ rw b at h
  ]

  pub All-of_sort : (xs : List A) → All P (sort before xs) → All P xs
  unfolding sort
  All-of_sort [] h = tt
  All-of_sort (x ∷ xs) h =
      let (hx, rest) = All-of_insert_sorted x (sort before xs) h in (hx, All-of_sort xs rest)

-- Sorting by a number: `(left, right) => left.key - right.key`.
module _ {ℓ} {A : Type ℓ} (key : A → ℕ) where
  abbrev pub by_key : A → A → Bool
  by_key a b = ltb (key a) (key b)

  abbrev IsSorted : List A → Type 0
  IsSorted [] = Unit
  IsSorted (x ∷ xs) = All (λ y. key x ≤ key y) xs × IsSorted xs

  All-mono : {n m : ℕ} (xs : List A) → n ≤ m → All (λ y. m ≤ key y) xs → All (λ y. n ≤ key y) xs
  All-mono [] le h = tt
  All-mono (x ∷ xs) le h = (omega arith, All-mono xs le h.1)

  insert_sorted-IsSorted :
      (x : A) (xs : List A) → IsSorted xs → IsSorted (insert_sorted by_key x xs)
  unfolding insert_sorted
  insert_sorted-IsSorted x [] h = (tt, tt)
  insert_sorted-IsSorted x (y ∷ ys) h = elim (Bool-cases (by_key y x)) [
    | inl b ↦ rw b (
      All-insert_sorted by_key (λ z. key y ≤ key z) x ys (omega tests) h.0,
      insert_sorted-IsSorted x ys h.1,
    )
    | inr b ↦ rw b ((ground arith, All-mono ys (ground arith) h.0), h)
  ]

  sort-IsSorted : (xs : List A) → IsSorted (sort by_key xs)
  unfolding sort
  sort-IsSorted [] = tt
  sort-IsSorted (x ∷ xs) = insert_sorted-IsSorted x (sort by_key xs) (sort-IsSorted xs)

  -- The first of the sorted elements is least.
  pub head?-sort_least :
      (xs : List A) (a : A) → head? (sort by_key xs) ≡ some a → All (λ y. key a ≤ key y) xs
  head?-sort_least xs a e =
      All-of_sort by_key (λ y. key a ≤ key y) xs (least (sort by_key xs) e (sort-IsSorted xs))
    where
      least : (ys : List A) → head? ys ≡ some a → IsSorted ys → All (λ y. key a ≤ key y) ys
      least [] e h = cc
      least (y ∷ ys) e h =
          let same : key y ≡ key a = ap key (cc e) in
          (omega (arith, same), All-mono ys (omega (arith, same)) h.0)

module _ {ℓ κ} {A : Type ℓ} (before : A → A → Bool) (P : A → Type κ) where
  -- What holds of all elements holds of the first of the sorted ones.
  pub All-head?-sort : (xs : List A) (a : A) → head? (sort before xs) ≡ some a → All P xs → P a
  All-head?-sort xs a e h = first (sort before xs) e (All-sort before P xs h)
    where
      first : (ys : List A) → head? ys ≡ some a → All P ys → P a
      first [] e h = cc
      first (y ∷ ys) e h = let same : y ≡ a = cc e in rw (← same) h.0
