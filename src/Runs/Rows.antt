-- ===== src/Runs/Rows.antt =====
-- The rows that a query reads from a table: filtered, sorted by an index, and cut off, they are still
-- rows of it under distinct ids.
use circuit_agent.Prelude.{
  ℕ, zero, suc, ◌≤◌, ◌≡◌, refl, Bool, false, none, some, List, [], ◌∷◌, arith, nat_eq, Bool-cases,
  inl, inr, All, All-imp, filter, take, sort, insert_sorted, All-insert_sorted, All-sort, All-take,
}
use circuit_agent.Runs.Table.{get, patch, AreDistinct, sum}

module _ {ℓ} {A : Type ℓ} (key : A → ℕ) where
  pub absent-All :
      (k : ℕ) (xs : List A) → get key k xs ≡ none → All (λ x. nat_eq (key x) k ≡ false) xs
  unfolding get
  absent-All k [] e = tt
  absent-All k (x ∷ xs) e = elim (Bool-cases (nat_eq (key x) k)) [
    | inl same ↦ cc (rw (same, get) at e)
    | inr other ↦ (other, absent-All k xs (rw (other, get) at e))
  ]

  All-absent_rows :
      (k : ℕ) (xs : List A) → All (λ x. nat_eq (key x) k ≡ false) xs → get key k xs ≡ none
  unfolding get
  All-absent_rows k [] h = refl
  All-absent_rows k (x ∷ xs) (other, rest) = rw other (All-absent_rows k xs rest)

  -- A row of a table is read under its id.
  pub rows-get : (xs : List A) → AreDistinct key xs → All (λ x. get key (key x) xs ≡ some x) xs
  unfolding get
  rows-get [] d = tt
  rows-get (x ∷ xs) (fresh, d) = (
    ground arith,
    All-imp (λ y. (nat_eq (key y) (key x) ≡ false) × (get key (key y) xs ≡ some y)) xs
        (λ y (apart, here). ground (arith, apart, here))
        (All-both xs (absent-All (key x) xs fresh) (rows-get xs d)),
  )
    where
      All-both :
          (ys : List A)
          → All (λ y. nat_eq (key y) (key x) ≡ false) ys
          → All (λ y. get key (key y) xs ≡ some y) ys
          → All (λ y. (nat_eq (key y) (key x) ≡ false) × (get key (key y) xs ≡ some y)) ys
      All-both [] h h' = tt
      All-both (y ∷ ys) (h, hs) (h', hs') = ((h, h'), All-both ys hs hs')

  -- One row has at most the sum.
  pub get-sum : (f : A → ℕ) (k : ℕ) (xs : List A) (x : A) → get key k xs ≡ some x → f x ≤ sum f xs
  unfolding get
  get-sum f k [] x e = cc
  get-sum f k (y ∷ ys) x e = elim (Bool-cases (nat_eq (key y) k)) [
    | inl same ↦ let found : y ≡ x = cc (rw (same, get) at e) in rw found (omega arith)
    | inr other ↦ omega (arith, get-sum f k ys x (rw (other, get) at e))
  ]

  -- Reading another row than the one patched.
  pub get-patch_other :
      (j k : ℕ) (g : A → A) (xs : List A) (x : A)
      → ((y : A) → key (g y) ≡ key y)
      → nat_eq j k ≡ false
      → get key j xs ≡ some x
      → get key j (patch key k g xs) ≡ some x
  unfolding get patch
  get-patch_other j k g [] x keeps apart e = cc
  get-patch_other j k g (y ∷ ys) x keeps apart e =
      ground (arith, keeps y, get-patch_other j k g ys x keeps apart)

  absent-filter :
      (p : A → Bool) (k : ℕ) (xs : List A) → get key k xs ≡ none → get key k (filter p xs) ≡ none
  unfolding get
  absent-filter p k [] e = refl
  absent-filter p k (x ∷ xs) e = ground (arith, absent-filter p k xs)

  pub filter-AreDistinct :
      (p : A → Bool) (xs : List A) → AreDistinct key xs → AreDistinct key (filter p xs)
  filter-AreDistinct p [] d = tt
  filter-AreDistinct p (x ∷ xs) (fresh, d) = elim (Bool-cases (p x)) [
    | inl t ↦ rw t (absent-filter p (key x) xs fresh, filter-AreDistinct p xs d)
    | inr f ↦ rw f (filter-AreDistinct p xs d)
  ]

  insert_sorted-AreDistinct :
      (before : A → A → Bool) (x : A) (xs : List A)
      → get key (key x) xs ≡ none
      → AreDistinct key xs
      → AreDistinct key (insert_sorted before x xs)
  unfolding insert_sorted get
  insert_sorted-AreDistinct before x [] fresh d = (refl, tt)
  insert_sorted-AreDistinct before x (y ∷ ys) fresh (fresh_y, d) =
      let (apart, absent) = absent-All (key x) (y ∷ ys) fresh in
      let apart' : nat_eq (key x) (key y) ≡ false = ground (arith, apart) in
      elim (Bool-cases (before y x)) [
        | inl b ↦ rw b (
          All-absent_rows (key y) (insert_sorted before x ys) (
              All-insert_sorted before (λ z. nat_eq (key z) (key y) ≡ false) x ys apart'
                (absent-All (key y) ys fresh_y)),
          insert_sorted-AreDistinct before x ys (All-absent_rows (key x) ys absent) d,
        )
        | inr b ↦ rw b (fresh, (fresh_y, d))
      ]

  absent-sort :
      (before : A → A → Bool) (k : ℕ) (xs : List A)
      → get key k xs ≡ none
      → get key k (sort before xs) ≡ none
  absent-sort before k xs e =
      All-absent_rows k (sort before xs)
        (All-sort before (λ x. nat_eq (key x) k ≡ false) xs (absent-All k xs e))

  pub sort-AreDistinct :
      (before : A → A → Bool) (xs : List A) → AreDistinct key xs → AreDistinct key (sort before xs)
  unfolding sort
  sort-AreDistinct before [] d = tt
  sort-AreDistinct before (x ∷ xs) (fresh, d) =
      insert_sorted-AreDistinct before x (sort before xs) (absent-sort before (key x) xs fresh)
        (sort-AreDistinct before xs d)

  pub take-AreDistinct : (n : ℕ) (xs : List A) → AreDistinct key xs → AreDistinct key (take n xs)
  take-AreDistinct zero xs d = tt
  take-AreDistinct (suc n) [] d = tt
  take-AreDistinct (suc n) (x ∷ xs) (fresh, d) = (
    All-absent_rows (key x) (take n xs)
        (All-take (λ y. nat_eq (key y) (key x) ≡ false) n xs (absent-All (key x) xs fresh)),
    take-AreDistinct n xs d,
  )
