-- ===== src/Editor/Searching.antt =====
-- The search of packages/nova-cli/src/editor.ts: what `n` finds, and what it does not look at.
use native.Mathlib.Nat.{mod-lt, mod-eq_of_lt, add-mod_right}
use circuit_agent.Prelude.{
  ℕ, zero, suc, ◌+◌, ◌-◌, ◌%◌, ◌≤◌, ◌<◌, String, ◌≡◌, ◌≢◌, inl, inr, refl, sym, subst, ap, true,
  false, Option, none, some, List, arith, length, get_or, Bool-cases, Option-cases, nat_eq,
  if◌then◌else◌, ◌∙◌, ltb,
}
use circuit_agent.Editor.{Cursor, at_cursor, find_match}
use circuit_agent.Editor.Text.{text_drop, starts_with, first_place, index_of}

first_place-starts_with :
    (query text : String) (i : ℕ)
    → first_place query text ≡ some i
    → starts_with query (text_drop i text) ≡ true
unfolding first_place text_drop
first_place-starts_with query String.[] i h = elim (Bool-cases (starts_with query String.[])) [
  | inl t ↦
      let same : zero ≡ i = cc (rw t at h) in
      subst (λ k. starts_with query (text_drop k String.[]) ≡ true) same t
  | inr f ↦ cc (rw f at h)
]
first_place-starts_with query (String.◌∷◌ c s) i h =
    elim (Bool-cases (starts_with query (String.◌∷◌ c s))) [
      | inl t ↦
          let same : zero ≡ i = cc (rw t at h) in
          subst (λ k. starts_with query (text_drop k (String.◌∷◌ c s)) ≡ true) same t
      | inr f ↦ elim (Option-cases (first_place query s)) [
        | inl e ↦ cc (rw (f, e) at h)
        | inr (k, e) ↦
            let same : suc k ≡ i = cc (rw (f, e) at h) in
            subst (λ j. starts_with query (text_drop j (String.◌∷◌ c s)) ≡ true) same
              (first_place-starts_with query s k e)
      ]
    ]

text_drop-text_drop :
    (n i m : ℕ) (s : String) → n + i ≡ m → text_drop i (text_drop n s) ≡ text_drop m s
unfolding text_drop
text_drop-text_drop zero i m s e =
    let same : i ≡ m = omega (arith, e) in ap (λ k. text_drop k s) same
text_drop-text_drop (suc n) i zero s e = absurd (omega (arith, e))
text_drop-text_drop (suc n) zero (suc m) String.[] e = refl
text_drop-text_drop (suc n) (suc i) (suc m) String.[] e = refl
text_drop-text_drop (suc n) i (suc m) (String.◌∷◌ c s) e =
    text_drop-text_drop n i m s (omega (arith, e))

-- The query stands in the line at the column.
abbrev pub StandsAt : List String → String → Cursor → Type 0
StandsAt lines query place =
    starts_with query (text_drop place.col (get_or lines place.row "")) ≡ true

index_of-starts_with :
    (text query : String) (from i : ℕ)
    → index_of text query from ≡ some i
    → (from ≤ i) × (starts_with query (text_drop i text) ≡ true)
unfolding index_of
index_of-starts_with text query from i h =
    elim (Option-cases (first_place query (text_drop from text))) [
      | inl e ↦ cc (rw (e, index_of) at h)
      | inr (k, e) ↦
          let same : from + k ≡ i = cc (rw (e, index_of) at h) in
          (
            omega (arith, same),
            subst (λ s. starts_with query s ≡ true) (text_drop-text_drop from k i text same)
                (first_place-starts_with query (text_drop from text) k e),
          )
    ]

first_place-none :
    (query text : String) (i : ℕ)
    → first_place query text ≡ none
    → starts_with query (text_drop i text) ≡ false
unfolding first_place text_drop
first_place-none query String.[] i h = elim (Bool-cases (starts_with query String.[])) [
  | inl t ↦ cc (rw (t, first_place) at h)
  | inr f ↦ at_end i f
]
  where
    at_end :
        (i : ℕ)
        → starts_with query String.[] ≡ false
        → starts_with query (text_drop i String.[]) ≡ false
    at_end zero f = f
    at_end (suc i) f = f
first_place-none query (String.◌∷◌ c s) i h =
    elim (Bool-cases (starts_with query (String.◌∷◌ c s))) [
      | inl t ↦ cc (rw (t, first_place) at h)
      | inr f ↦ elim (Option-cases (first_place query s)) [
        | inr (k, e) ↦ cc (rw (f, e, first_place) at h)
        | inl e ↦ later i f (λ k. first_place-none query s k e)
      ]
    ]
  where
    later :
        (i : ℕ)
        → starts_with query (String.◌∷◌ c s) ≡ false
        → ((k : ℕ) → starts_with query (text_drop k s) ≡ false)
        → starts_with query (text_drop i (String.◌∷◌ c s)) ≡ false
    later zero f rest = f
    later (suc i) f rest = rest i

-- The query stands in the line at no column from the given one on.
abbrev pub StandsNowhere : String → String → ℕ → Type 0
StandsNowhere line query from =
    (col : ℕ) → from ≤ col → starts_with query (text_drop col line) ≡ false

index_of-StandsNowhere :
    (line query : String) (from : ℕ)
    → index_of line query from ≡ none
    → StandsNowhere line query from
unfolding index_of
index_of-StandsNowhere line query from h col low =
    elim (Option-cases (first_place query (text_drop from line))) [
      | inr (i, e) ↦ cc (rw (e, index_of) at h)
      | inl e ↦
          subst (λ s. starts_with query s ≡ false)
            (text_drop-text_drop from (col - from) col line (omega arith))
            (first_place-none query (text_drop from line) (col - from) e)
    ]

-- Where the loop finds the query: on a row of the document, at a place where the query stands.
find_match-StandsAt :
    (lines : List String) (query : String) (cursor : Cursor) (left offset : ℕ) (place : Cursor)
    → 0 < length lines
    → find_match lines query cursor left offset ≡ some place
    → (place.row < length lines) × StandsAt lines query place
unfolding find_match
find_match-StandsAt lines query cursor zero offset place some_lines h = cc
find_match-StandsAt lines query cursor (suc left) offset place some_lines h =
    let row = (cursor.row + offset) % length lines in
    elim (Option-cases
      (index_of (get_or lines row "") query (if nat_eq offset 0 then cursor.col + 1 else 0))) [
        | inl e ↦
            find_match-StandsAt lines query cursor left (offset + 1) place some_lines
              (rw (e, find_match) at h)
        | inr (i, e) ↦
            let same : at_cursor row i ≡ place = cc (rw (e, find_match) at h) in
            subst (λ at. (at.row < length lines) × StandsAt lines query at) same
              (mod-lt (cursor.row + offset) some_lines, (index_of-starts_with _ query _ i e).1)
      ]

-- Where the loop does not find it: no row that it passed has a place for it.
find_match-none :
    (lines : List String) (query : String) (cursor : Cursor) (left offset k : ℕ)
    → find_match lines query cursor left offset ≡ none
    → offset ≤ k
    → k < offset + left
    → index_of
        (get_or lines ((cursor.row + k) % length lines) "")
        query
        (if nat_eq k 0 then cursor.col + 1 else 0)
      ≡ none
unfolding find_match
find_match-none lines query cursor zero offset k h low high = absurd (omega arith)
find_match-none lines query cursor (suc left) offset k h low high =
    elim (Option-cases (
      index_of (get_or lines ((cursor.row + offset) % length lines) "") query
        (if nat_eq offset 0 then cursor.col + 1 else 0))) [
          | inr (i, e) ↦ cc (rw (e, find_match) at h)
          | inl e ↦ elim (Bool-cases (nat_eq offset k)) [
            | inl same ↦
                let here : offset ≡ k = ground arith in
                subst
                  (λ k.
                    index_of (get_or lines ((cursor.row + k) % length lines) "") query
                      (if nat_eq k 0 then cursor.col + 1 else 0)
                    ≡ none)
                  here e
            | inr other ↦
                find_match-none lines query cursor left (offset + 1) k (rw (e, find_match) at h)
                  (ground arith) (omega arith)
          ]
        ]

-- Every other row comes up in the loop.
row_reached :
    (row start count : ℕ)
    → row < count
    → start < count
    → row ≢ start
    → (k : ℕ) × (0 < k) × (k < count) × ((start + k) % count ≡ row)
row_reached row start count h s other = elim (Bool-cases (ltb start row)) [
  | inl below ↦
      let n : start + (row - start) ≡ row = ground arith in
      (row - start, ground arith, omega arith, ap (λ x. x % count) n ∙ mod-eq_of_lt h)
  | inr above ↦
      let n : start + (row + count - start) ≡ row + count = omega arith in
      (
        row + count - start,
        omega arith,
        ground arith,
        ap (λ x. x % count) n ∙ add-mod_right row count ∙ mod-eq_of_lt h,
      )
]

-- What the outcome of a search says of the document.
abbrev pub Searched : List String → String → Cursor → Option Cursor → Type 0
Searched lines query cursor (some place) = (place.row < length lines) × StandsAt lines query place
Searched lines query cursor none =
    StandsNowhere (get_or lines cursor.row "") query (cursor.col + 1)
    × ((row : ℕ)
        → row < length lines
        → row ≢ cursor.row
        → StandsNowhere (get_or lines row "") query 0)

missed_row :
    (lines : List String) (query : String) (cursor : Cursor) (row : ℕ)
    → find_match lines query cursor (length lines) 0 ≡ none
    → (k : ℕ) × (0 < k) × (k < length lines) × ((cursor.row + k) % length lines ≡ row)
    → StandsNowhere (get_or lines row "") query 0
missed_row lines query cursor row e (k, later, inside, same) =
    let not_first : nat_eq k 0 ≡ false = ground arith in
    let nowhere =
      find_match-none lines query cursor (length lines) 0 k e (omega arith) (omega arith) in
    subst (λ row. StandsNowhere (get_or lines row "") query 0) same
      (index_of-StandsNowhere _ query 0 (rw not_first at nowhere))

missed :
    (lines : List String) (query : String) (cursor : Cursor)
    → cursor.row < length lines
    → find_match lines query cursor (length lines) 0 ≡ none
    → Searched lines query cursor none
missed lines query cursor inside e = (
  subst (λ row. StandsNowhere (get_or lines row "") query (cursor.col + 1))
      (ap (λ n. n % length lines) (omega arith) ∙ mod-eq_of_lt inside)
      (index_of-StandsNowhere _ query (cursor.col + 1)
        (find_match-none lines query cursor (length lines) 0 0 e (omega arith) (omega arith))),
  (λ row h other.
      missed_row lines query cursor row e
        (row_reached row cursor.row (length lines) h inside other)),
)

-- A search from a cursor in the document answers a row and a column at which the query stands; or
-- the query stands on no other row, and nowhere after the cursor on its row.
pub find_match_lem :
    (lines : List String) (query : String) (cursor : Cursor)
    → cursor.row < length lines
    → Searched lines query cursor (find_match lines query cursor (length lines) 0)
find_match_lem lines query cursor inside =
    elim (Option-cases (find_match lines query cursor (length lines) 0)) [
      | inl e ↦ subst (Searched lines query cursor) (sym e) (missed lines query cursor inside e)
      | inr (place, e) ↦
          subst (Searched lines query cursor) (sym e)
            (find_match-StandsAt lines query cursor (length lines) 0 place (omega arith) e)
    ]
