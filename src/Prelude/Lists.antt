-- ===== src/Prelude/Lists.antt =====
-- Lists measured by native numbers and searched by Boolean tests, as the array methods do.
use Prim.Native.Nat.{ℕ, zero, suc, ◌+◌, min}
use Prim.Native.String.{String}
use mathlib.Core.Path.{◌≡◌, refl, sym, subst}
use mathlib.Core.Logic.{◌≢◌, inl, inr}
use mathlib.Core.Bool.{Bool, true, false, ◌&&◌, ◌||◌}
use mathlib.Core.Option.{Option, none, some}
use mathlib.Core.List.{List, [], ◌∷◌, ◌++◌, map, Memᴰ}
use native.Mathlib.Omega.{arith}
use text.Mathlib.Text.{◌==◌}
use text.Mathlib.TextEquality.{eq_iff}
use circuit_agent.Prelude.Tests.{if◌then◌else◌, Bool-cases}

module _ {ℓ} {A : Type ℓ} where
  abbrev pub length : List A → ℕ
  length [] = 0
  length (x ∷ xs) = suc (length xs)

  abbrev pub take : ℕ → List A → List A
  take zero xs = []
  take (suc n) [] = []
  take (suc n) (x ∷ xs) = x ∷ take n xs

  abbrev pub drop : ℕ → List A → List A
  drop zero xs = xs
  drop (suc n) [] = []
  drop (suc n) (x ∷ xs) = drop n xs

  abbrev pub get_or : List A → ℕ → A → A
  get_or [] i d = d
  get_or (x ∷ xs) zero d = x
  get_or (x ∷ xs) (suc i) d = get_or xs i d

  -- `find`, `filter`, `some` and `every` of an array.
  abbrev pub find : (A → Bool) → List A → Option A
  find p [] = none
  find p (x ∷ xs) = if p x then some x else find p xs

  abbrev pub filter : (A → Bool) → List A → List A
  filter p [] = []
  filter p (x ∷ xs) = let rest = filter p xs in if p x then x ∷ rest else rest

  abbrev pub any : (A → Bool) → List A → Bool
  any p [] = false
  any p (x ∷ xs) = p x || any p xs

  abbrev pub all : (A → Bool) → List A → Bool
  all p [] = true
  all p (x ∷ xs) = p x && all p xs

  pub length-append : (xs ys : List A) → length (xs ++ ys) ≡ length xs + length ys
  length-append [] ys = omega arith
  length-append (x ∷ xs) ys = omega (arith, length-append xs ys)

  pub length-take : (n : ℕ) (xs : List A) → length (take n xs) ≡ min n (length xs)
  length-take zero xs = omega arith
  length-take (suc n) [] = omega arith
  length-take (suc n) (x ∷ xs) = omega (arith, length-take n xs)

-- What holds of every element, and what is an element, by recursion.
module _ {ℓ κ} {A : Type ℓ} (P : A → Type κ) where
  abbrev pub All : List A → Type κ
  All [] = Unit
  All (x ∷ xs) = P x × All xs

  pub All-append : (xs ys : List A) → All xs → All ys → All (xs ++ ys)
  All-append [] ys hx hy = hy
  All-append (x ∷ xs) ys hx hy = (hx.0, All-append xs ys hx.1 hy)

  pub All-find : (p : A → Bool) (xs : List A) (a : A) → find p xs ≡ some a → All xs → P a
  All-find p [] a e h = cc
  All-find p (x ∷ xs) a e h = elim (Bool-cases (p x)) [
    | inl t ↦ let same : x ≡ a = cc (rw t at e) in rw (← same) h.0
    | inr f ↦ All-find p xs a (rw f at e) h.1
  ]

module _ {ℓ κ} {A : Type ℓ} (P : A → Type κ) where
  -- What passes a filter passes its test, and has what all elements have.
  pub All-filter :
      (p : A → Bool) (xs : List A) → All P xs → All (λ x. P x × (p x ≡ true)) (filter p xs)
  All-filter p [] h = tt
  All-filter p (x ∷ xs) h = elim (Bool-cases (p x)) [
    | inl t ↦ rw t ((h.0, t), All-filter p xs h.1)
    | inr f ↦ rw f (All-filter p xs h.1)
  ]

  pub All-imp {μ} : {Q : A → Type μ} (xs : List A) → ((x : A) → P x → Q x) → All P xs → All Q xs
  All-imp [] f h = tt
  All-imp (x ∷ xs) f h = (f x h.0, All-imp xs f h.1)

  pub All-get : (x : A) (xs : List A) → Memᴰ x xs → All P xs → P x
  All-get x [] m h = elim m [ ]
  All-get x (y ∷ ys) (Memᴰ.head e) h = subst P (sym e) h.0
  All-get x (y ∷ ys) (Memᴰ.tail m) h = All-get x ys m h.1

  pub All-take : (n : ℕ) (xs : List A) → All P xs → All P (take n xs)
  All-take zero xs h = tt
  All-take (suc n) [] h = tt
  All-take (suc n) (x ∷ xs) h = (h.0, All-take n xs h.1)

  -- What holds where the filter's test does holds of all elements that pass it.
  pub All-of_filter :
      (p : A → Bool) (xs : List A) → All P (filter p xs) → All (λ x. p x ≡ true → P x) xs
  All-of_filter p [] h = tt
  All-of_filter p (x ∷ xs) h = elim (Bool-cases (p x)) [
    | inl t ↦ let (here, later) = rw t at h in ((λ _. here), All-of_filter p xs later)
    | inr f ↦ ((λ t. cc), All-of_filter p xs (rw f at h))
  ]

module _ {ℓ} {A : Type ℓ} where
  pub length-map {κ} : {B : Type κ} (xs : List A) (f : A → B) → length (map f xs) ≡ length xs
  length-map [] f = refl
  length-map (x ∷ xs) f = omega (arith, length-map xs f)

  pub All-map {κ μ} :
      {B : Type κ} (f : A → B) (P : B → Type μ) (xs : List A)
      → All (λ x. P (f x)) xs
      → All P (map f xs)
  All-map f P [] h = tt
  All-map f P (x ∷ xs) h = (h.0, All-map f P xs h.1)

  -- Every element is an element.
  pub All-Memᴰ : (xs : List A) → All (λ x. Memᴰ x xs) xs
  All-Memᴰ [] = tt
  All-Memᴰ (x ∷ xs) =
      (Memᴰ.head refl, All-imp (λ y. Memᴰ y xs) xs (λ y m. Memᴰ.tail m) (All-Memᴰ xs))

  pub All-of_all : (p : A → Bool) (xs : List A) → all p xs ≡ true → All (λ x. p x ≡ true) xs
  All-of_all p [] h = tt
  All-of_all p (x ∷ xs) h = (ground arith, All-of_all p xs (ground arith))

abbrev pub includes : List String → String → Bool
includes xs s = any (λ x. x == s) xs

pub includes-append :
    (xs ys : List String) (s : String) → includes (xs ++ ys) s ≡ (includes xs s || includes ys s)
includes-append [] ys s = refl
includes-append (x ∷ xs) ys s = ground (arith, includes-append xs ys s)

-- A text that a list does not include differs from all of it.
pub All-of_includes : (xs : List String) (s : String) → includes xs s ≡ false → All (λ x. x ≢ s) xs
All-of_includes [] s h = tt
All-of_includes (x ∷ xs) s h =
    (ground (arith, eq_iff x s, h), All-of_includes xs s (ground (arith, h)))
