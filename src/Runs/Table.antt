-- ===== src/Runs/Table.antt =====
-- A table of the hosted database: rows under distinct numeric ids, read by `db.get` and changed by
-- `db.patch`. A row that is not there is not patched: the handlers patch only rows that they read.
use circuit_agent.Prelude.{
  ℕ, ◌+◌, ◌≡◌, refl, ap, subst, true, false, Option, none, some, List, [], ◌∷◌, ◌++◌, arith, nat_eq,
  if◌then◌else◌, Bool-cases, inl, inr, All,
}

module _ {ℓ} {A : Type ℓ} where
  -- The sum of an amount over the rows.
  abbrev pub sum : (A → ℕ) → List A → ℕ
  sum f [] = 0
  sum f (x ∷ xs) = f x + sum f xs

  pub sum-ext : (f f' : A → ℕ) (xs : List A) → ((x : A) → f x ≡ f' x) → sum f xs ≡ sum f' xs
  sum-ext f f' [] h = refl
  sum-ext f f' (x ∷ xs) h = omega (arith, h x, sum-ext f f' xs h)

  pub sum-append : (f : A → ℕ) (xs : List A) (x : A) → sum f (xs ++ x ∷ []) ≡ sum f xs + f x
  sum-append f [] x = omega arith
  sum-append f (y ∷ ys) x = omega (arith, sum-append f ys x)

module _ {ℓ} {A : Type ℓ} (key : A → ℕ) where
  unfoldable pub get : ℕ → List A → Option A
  get k [] = none
  get k (x ∷ xs) = if nat_eq (key x) k then some x else get k xs

  unfoldable pub patch : ℕ → (A → A) → List A → List A
  patch k g [] = []
  patch k g (x ∷ xs) = (if nat_eq (key x) k then g x else x) ∷ patch k g xs

  abbrev pub AreDistinct : List A → Type ℓ
  AreDistinct [] = Unit
  AreDistinct (x ∷ xs) = (get (key x) xs ≡ none) × AreDistinct xs

  -- A patch under an id that no row has changes nothing.
  pub patch_absent : (k : ℕ) (g : A → A) (xs : List A) → get k xs ≡ none → patch k g xs ≡ xs
  unfolding get patch
  patch_absent k g [] h = refl
  patch_absent k g (x ∷ xs) h = elim (Bool-cases (nat_eq (key x) k)) [
    | inl same ↦ cc (rw (same, get) at h)
    | inr other ↦ rw other (ap (λ rest. x ∷ rest) (patch_absent k g xs (rw (other, get) at h)))
  ]

  pub get-key : (k : ℕ) (xs : List A) (x : A) → get k xs ≡ some x → key x ≡ k
  unfolding get
  get-key k [] x h = cc
  get-key k (y ∷ ys) x h = elim (Bool-cases (nat_eq (key y) k)) [
    | inl same ↦ let named : y ≡ x = cc (rw (same, get) at h) in rw (← named) (ground arith)
    | inr other ↦ get-key k ys x (rw (other, get) at h)
  ]

  module _ (g : A → A) (keeps : (x : A) → key (g x) ≡ key x) where
    get-patch-none : (j k : ℕ) (xs : List A) → get j xs ≡ none → get j (patch k g xs) ≡ none
    unfolding get patch
    get-patch-none j k [] h = refl
    get-patch-none j k (x ∷ xs) h = ground (arith, keeps x, get-patch-none j k xs)

    pub patch-AreDistinct : (k : ℕ) (xs : List A) → AreDistinct xs → AreDistinct (patch k g xs)
    unfolding patch
    patch-AreDistinct k [] h = tt
    patch-AreDistinct k (x ∷ xs) h = elim (Bool-cases (nat_eq (key x) k)) [
      | inl same ↦ rw (same, keeps x) (get-patch-none (key x) k xs h.0, patch-AreDistinct k xs h.1)
      | inr other ↦ rw other (get-patch-none (key x) k xs h.0, patch-AreDistinct k xs h.1)
    ]

    -- A row is read as it was patched.
    pub get-patch :
        (j k : ℕ) (xs : List A) (x : A)
        → get j xs ≡ some x
        → get j (patch k g xs) ≡ some (if nat_eq j k then g x else x)
    unfolding get patch
    get-patch j k [] x h = cc
    get-patch j k (y ∷ ys) x h = ground (arith, keeps y, get-patch j k ys x)

  pub absent_below :
      (k : ℕ) (x : A) (xs : List A)
      → nat_eq (key x) k ≡ true
      → get (key x) xs ≡ none
      → get k xs ≡ none
  absent_below k x xs same d =
      let named : key x ≡ k = ground arith in subst (λ j. get j xs ≡ none) named d

  All-absent {κ} :
      (P Q : A → Type κ) (k : ℕ) (xs : List A)
      → get k xs ≡ none
      → ((x : A) → nat_eq (key x) k ≡ false → P x → Q x)
      → All P xs
      → All Q xs
  unfolding get
  All-absent P Q k [] e others h = tt
  All-absent P Q k (x ∷ xs) e others h = elim (Bool-cases (nat_eq (key x) k)) [
    | inl same ↦ cc (rw (same, get) at e)
    | inr other ↦ (others x other h.0, All-absent P Q k xs (rw (other, get) at e) others h.1)
  ]

  -- What held of each row holds after a patch, if the new row has it.
  pub All-patch {κ} :
      (P Q : A → Type κ) (k : ℕ) (g : A → A) (xs : List A) (old : A)
      → get k xs ≡ some old
      → AreDistinct xs
      → ((x : A) → nat_eq (key x) k ≡ false → P x → Q x)
      → (P old → Q (g old))
      → All P xs
      → All Q (patch k g xs)
  unfolding patch get
  All-patch P Q k g [] old e d others here h = cc
  All-patch P Q k g (x ∷ xs) old e d others here h = elim (Bool-cases (nat_eq (key x) k)) [
    | inl same ↦
        let named : x ≡ old = cc (rw (same, get) at e) in
        let absent = absent_below k x xs same d.0 in
        rw (same, patch_absent k g xs absent, named)
          (here (subst P named h.0), All-absent P Q k xs absent others h.1)
    | inr other ↦
        rw other
          (others x other h.0, All-patch P Q k g xs old (rw (other, get) at e) d.1 others here h.1)
  ]

  -- A patch that keeps the amount of each row keeps the sum.
  pub sum-patch_same :
      (f : A → ℕ) (k : ℕ) (g : A → A) (xs : List A)
      → ((x : A) → f (g x) ≡ f x)
      → sum f (patch k g xs) ≡ sum f xs
  unfolding patch
  sum-patch_same f k g [] h = refl
  sum-patch_same f k g (x ∷ xs) h = ground (arith, h x, sum-patch_same f k g xs h)

  -- A patch changes the sum by what it changes at its row.
  pub sum-patch :
      (f : A → ℕ) (k : ℕ) (g : A → A) (xs : List A) (old : A)
      → get k xs ≡ some old
      → AreDistinct xs
      → sum f (patch k g xs) + f old ≡ sum f xs + f (g old)
  unfolding patch get
  sum-patch f k g [] old e d = cc
  sum-patch f k g (x ∷ xs) old e d = elim (Bool-cases (nat_eq (key x) k)) [
    | inl same ↦
        let named : x ≡ old = cc (rw (same, get) at e) in
        rw (same, patch_absent k g xs (absent_below k x xs same d.0), named) (omega arith)
    | inr other ↦ rw other (omega (arith, sum-patch f k g xs old (rw (other, get) at e) d.1))
  ]

  -- What a patch keeps of every row holds of all after it.
  pub All-patch_same {κ} :
      (P Q : A → Type κ) (k : ℕ) (g : A → A) (xs : List A)
      → ((x : A) → P x → Q x × Q (g x))
      → All P xs
      → All Q (patch k g xs)
  unfolding patch
  All-patch_same P Q k g [] keeps h = tt
  All-patch_same P Q k g (x ∷ xs) keeps h =
      let rest = All-patch_same P Q k g xs keeps h.1 in
      elim (Bool-cases (nat_eq (key x) k)) [
        | inl same ↦ rw same ((keeps x h.0).1, rest)
        | inr other ↦ rw other ((keeps x h.0).0, rest)
      ]

  patch-id : (k : ℕ) (xs : List A) → patch k (λ x. x) xs ≡ xs
  unfolding patch
  patch-id k [] = refl
  patch-id k (x ∷ xs) = elim (Bool-cases (nat_eq (key x) k)) [
    | inl same ↦ rw same (ap (λ rest. x ∷ rest) (patch-id k xs))
    | inr other ↦ rw other (ap (λ rest. x ∷ rest) (patch-id k xs))
  ]

  -- What follows for one row by its own argument, and for the others.
  pub All-split {κ} :
      (P Q : A → Type κ) (k : ℕ) (xs : List A) (old : A)
      → get k xs ≡ some old
      → AreDistinct xs
      → ((x : A) → nat_eq (key x) k ≡ false → P x → Q x)
      → (P old → Q old)
      → All P xs
      → All Q xs
  All-split P Q k xs old e d others here h =
      subst (λ ys. All Q ys) (patch-id k xs) (All-patch P Q k (λ x. x) xs old e d others here h)

  -- What holds of all rows holds of one that is read.
  pub All-get_row {κ} :
      (P : A → Type κ) (k : ℕ) (xs : List A) (x : A) → get k xs ≡ some x → All P xs → P x
  unfolding get
  All-get_row P k [] x e h = cc
  All-get_row P k (y ∷ ys) x e h = elim (Bool-cases (nat_eq (key y) k)) [
    | inl same ↦ let found : y ≡ x = cc (rw (same, get) at e) in subst P found h.0
    | inr other ↦ All-get_row P k ys x (rw (other, get) at e) h.1
  ]
