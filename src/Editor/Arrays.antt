-- ===== src/Editor/Arrays.antt =====
-- Facts on the array operations that the editor uses.
use mathlib.Core.List.{◌++◌}
use circuit_agent.Prelude.{
  ℕ, zero, suc, ◌+◌, ◌-◌, ◌≤◌, String, ◌≡◌, refl, ap, some, List, [], ◌∷◌, arith, length, take,
  drop, length-append, All,
}
use circuit_agent.Editor.Text.{splice, last?, init}

-- Put lines keep a document from being empty.
pub length-splice :
    (lines : List String) (at removed : ℕ) (put : List String)
    → length put ≤ length (splice lines at removed put)
length-splice lines at removed put =
    let later = drop (at + removed) lines in
    let longer : length put ≤ length (take at lines ++ put ++ later) =
      omega
        (arith, length-append (take at lines ++ put) later, length-append (take at lines) put) in
    longer

module _ {ℓ} {A : Type ℓ} where
  pub length-drop : (n : ℕ) (xs : List A) → length (drop n xs) ≡ length xs - n
  length-drop zero xs = omega arith
  length-drop (suc n) [] = omega arith
  length-drop (suc n) (x ∷ xs) = omega (arith, length-drop n xs)

  pub drop-append :
      (n : ℕ) (xs : List A) (x : A) → n ≤ length xs → drop n (xs ++ x ∷ []) ≡ drop n xs ++ x ∷ []
  drop-append zero xs x h = refl
  drop-append (suc n) [] x h = absurd (omega arith)
  drop-append (suc n) (y ∷ xs) x h = drop-append n xs x (omega arith)

  pub last?-append : (xs : List A) (x : A) → last? (xs ++ x ∷ []) ≡ some x
  last?-append [] x = refl
  last?-append (y ∷ []) x = refl
  last?-append (y ∷ z ∷ xs) x = last?-append (z ∷ xs) x

  pub init-append : (xs : List A) (x : A) → init (xs ++ x ∷ []) ≡ xs
  init-append [] x = refl
  init-append (y ∷ []) x = refl
  init-append (y ∷ z ∷ xs) x = ap (λ rest. y ∷ rest) (init-append (z ∷ xs) x)

  pub length-init : (xs : List A) (x : A) → last? xs ≡ some x → suc (length (init xs)) ≡ length xs
  length-init [] x h = cc
  length-init (y ∷ []) x h = refl
  length-init (y ∷ z ∷ xs) x h = omega (arith, length-init (z ∷ xs) x h)

module _ {ℓ κ} {A : Type ℓ} (P : A → Type κ) where
  pub All-drop : (n : ℕ) (xs : List A) → All P xs → All P (drop n xs)
  All-drop zero xs h = h
  All-drop (suc n) [] h = tt
  All-drop (suc n) (x ∷ xs) h = All-drop n xs h.1

  pub All-init : (xs : List A) → All P xs → All P (init xs)
  All-init [] h = tt
  All-init (x ∷ []) h = tt
  All-init (x ∷ y ∷ xs) h = (h.0, All-init (y ∷ xs) h.1)

  pub All-last? : (xs : List A) (x : A) → last? xs ≡ some x → All P xs → P x
  All-last? [] x e h = cc
  All-last? (y ∷ []) x e h = let same : y ≡ x = cc e in rw (← same) h.0
  All-last? (y ∷ z ∷ xs) x e h = All-last? (z ∷ xs) x e h.1
