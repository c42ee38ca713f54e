-- ===== src/Prelude/Tests.antt =====
-- Boolean tests on the native numbers, the conditional, results that may be an error.
use Prim.Native.Nat.{ℕ, ◌≤◌, ◌<◌, compare, Ordering}
use Prim.Native.String.{String}
use mathlib.Core.Path.{◌≡◌, refl}
use mathlib.Core.Logic.{◌↔◌, ◌⊎◌, inl, inr}
use mathlib.Core.Bool.{Bool, true, false}
use mathlib.Core.Option.{Option, none, some}
use native.Mathlib.Omega.{arith}

-- These compute to `compare`, which `ground` and `grind` read with no lemma listed.
abbrev pub ltb : ℕ → ℕ → Bool
ltb a b = elim (compare a b) [ Ordering.lt ↦ true | _ ↦ false ]

abbrev pub leb : ℕ → ℕ → Bool
leb a b = elim (compare a b) [ Ordering.gt ↦ false | _ ↦ true ]

abbrev pub nat_eq : ℕ → ℕ → Bool
nat_eq a b = elim (compare a b) [ Ordering.eq ↦ true | _ ↦ false ]

infix 1 if◌then◌else◌
abbrev pub if◌then◌else◌ {ℓ} : {A : Type ℓ} → Bool → A → A → A
if true then x else y = x
if false then x else y = y

pub if-false {ℓ} : {A : Type ℓ} (b : Bool) (x y : A) → b ≡ false → (if b then x else y) ≡ y
if-false true x y h = cc
if-false false x y h = refl

-- `omega` reads a test through these.
pub ltb→lt : (a b : ℕ) → ltb a b ≡ true → a < b
ltb→lt a b h = ground arith

pub leb→le : (a b : ℕ) → leb a b ≡ true → a ≤ b
leb→le a b h = ground arith

pub ltb_iff : (a b : ℕ) → (ltb a b ≡ true) ↔ (a < b)
ltb_iff a b = ground arith

pub leb_iff : (a b : ℕ) → (leb a b ≡ true) ↔ (a ≤ b)
leb_iff a b = ground arith

pub ruleset tests = (arith, ltb→lt, leb→le)

-- To split on a computed value and keep the equation.
pub Bool-cases : (b : Bool) → (b ≡ true) ⊎ (b ≡ false)
Bool-cases true = inl refl
Bool-cases false = inr refl

pub Option-cases {ℓ} : {A : Type ℓ} (o : Option A) → (o ≡ none) ⊎ ((a : A) × (o ≡ some a))
Option-cases none = inl refl
Option-cases (some a) = inr (a, refl)

abbrev pub is_some {ℓ} : {A : Type ℓ} → Option A → Bool
is_some none = false
is_some (some a) = true

-- `a ?? b`.
abbrev pub or_else {ℓ} : {A : Type ℓ} → Option A → A → A
or_else none d = d
or_else (some a) d = a

-- A call that returns, or throws an `Error` with a message.
pub data Result {ℓ} (A : Type ℓ) : Type ℓ where
  ok : A → Result A
  err : String → Result A

-- What follows a call that throws is not run.
infixl 5 ◌>>=◌ ◌>>◌
abbrev pub ◌>>=◌ {ℓ κ} : {A : Type ℓ} {B : Type κ} → Result A → (A → Result B) → Result B
err message >>= after = err message
ok value >>= after = after value

abbrev pub ◌>>◌ {ℓ} : {B : Type ℓ} → Result (Unit {0}) → Result B → Result B
err message >> after = err message
ok done >> after = after

-- What returns has returned at each of its calls.
pub >>=-returns {ℓ κ} :
    {A : Type ℓ} {B : Type κ} (call : Result A) (after : A → Result B) (result : B)
    → (call >>= after) ≡ ok result
    → (value : A) × (call ≡ ok value) × (after value ≡ ok result)
>>=-returns (ok value) after result e = (value, refl, e)
>>=-returns (err message) after result e = cc

pub >>-returns {ℓ} :
    {B : Type ℓ} (call : Result (Unit {0})) (after : Result B) (result : B)
    → (call >> after) ≡ ok result
    → after ≡ ok result
>>-returns (ok done) after result e = e
>>-returns (err message) after result e = cc

-- `if (bad) throw new Error(message)`.
abbrev pub throw_if : Bool → String → Result (Unit {0})
throw_if true e = err e
throw_if false e = ok tt

-- What returns has passed the guard before it.
pub throw_if-passed {ℓ} :
    {B : Type ℓ} (bad : Bool) (message : String) (after : Result B) (result : B)
    → (throw_if bad message >> after) ≡ ok result
    → (bad ≡ false) × (after ≡ ok result)
throw_if-passed true message after result e = cc
throw_if-passed false message after result e = (refl, e)
