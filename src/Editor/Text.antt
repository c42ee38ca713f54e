-- ===== src/Editor/Text.antt =====
-- The text and array operations of packages/nova-cli/src/editor.ts: `slice`, `indexOf`, `splice`,
-- `at(-1)`, and the word motions. A text is measured in characters, which is what JavaScript counts
-- as long as no character lies outside the basic plane.
use Prim.Native.Char.{Char, code}
use Prim.Native.String
use circuit_agent.Prelude.{
  ℕ, zero, suc, ◌+◌, ◌-◌, String, Bool, true, false, not, ◌&&◌, ◌||◌, Option, none, some, List, [],
  ◌∷◌, ◌++◌, leb, nat_eq, if◌then◌else◌, take, drop, length, ◌<◌, ◌≡◌, refl, ap, ◌∙◌, inl, inr,
  Bool-cases, arith, sym, ◌==◌, eq_iff,
}
use Prim.Native.String.append.{cons, nil}

unfoldable pub text_length : String → ℕ
text_length String.[] = 0
text_length (String.◌∷◌ c s) = suc (text_length s)

-- `slice(0, n)` and `slice(n)`.
unfoldable pub text_take : ℕ → String → String
text_take zero s = String.[]
text_take (suc n) String.[] = String.[]
text_take (suc n) (String.◌∷◌ c s) = String.◌∷◌ c (text_take n s)

unfoldable pub text_drop : ℕ → String → String
text_drop zero s = s
text_drop (suc n) String.[] = String.[]
text_drop (suc n) (String.◌∷◌ c s) = text_drop n s

abbrev pub text_append : String → String → String
text_append = String.◌++◌

unfoldable pub starts_with : String → String → Bool
starts_with String.[] s = true
starts_with (String.◌∷◌ c p) String.[] = false
starts_with (String.◌∷◌ c p) (String.◌∷◌ d s) =
    let rest = starts_with p s in nat_eq (code c) (code d) && rest

-- The first place at which the text begins with the query.
unfoldable pub first_place : String → String → Option ℕ
unfolding starts_with
first_place q String.[] = if starts_with q String.[] then some 0 else none
first_place q (String.◌∷◌ c s) =
    let later : Option ℕ = elim (first_place q s) [ none ↦ none | some i ↦ some (suc i) ] in
    if starts_with q (String.◌∷◌ c s) then some 0 else later

-- `indexOf(query, from)` of a query that is not empty; `none` is `-1`.
unfoldable pub index_of : String → String → ℕ → Option ℕ
unfolding first_place
index_of text query from = elim (first_place query (text_drop from text)) [
  | none ↦ none
  | some i ↦ some (from + i)
]

-- `/[A-Za-z0-9_]/`.
unfoldable pub is_word : Char → Bool
is_word c =
    (leb 65 (code c) && leb (code c) 90)
    || (leb 97 (code c) && leb (code c) 122)
    || (leb 48 (code c) && leb (code c) 57)
    || nat_eq (code c) 95

-- How many characters the loop `while (… test(line[index])) index += 1` passes.
unfoldable pub passed : (Char → Bool) → String → ℕ
passed test String.[] = 0
passed test (String.◌∷◌ c s) = let rest = suc (passed test s) in if test c then rest else 0

unfoldable pub next_word : String → ℕ → ℕ
unfolding passed is_word
next_word line col =
    let gap = col + passed is_word (text_drop col line) in
    gap + passed (λ c. not (is_word c)) (text_drop gap line)

-- `WORD.test(line[index])`; past the end the text tested is "undefined", which is a word.
unfoldable pub word_at : String → ℕ → Bool
unfolding is_word
word_at String.[] index = true
word_at (String.◌∷◌ c s) zero = is_word c
word_at (String.◌∷◌ c s) (suc index) = word_at s index

unfoldable pub back_over_gap : String → ℕ → ℕ
unfolding word_at
back_over_gap line zero = 0
back_over_gap line (suc index) =
    let further = back_over_gap line index in
    if not (word_at line (suc index)) then further else suc index

unfoldable pub back_over_word : String → ℕ → ℕ
unfolding word_at
back_over_word line zero = 0
back_over_word line (suc index) =
    let further = back_over_word line index in if word_at line index then further else suc index

unfoldable pub previous_word : String → ℕ → ℕ
unfolding back_over_gap back_over_word
previous_word line col = back_over_word line (back_over_gap line (col - 1))

-- `lines.splice(at, removed, …put)` within the range.
abbrev pub splice : List String → ℕ → ℕ → List String → List String
splice lines at removed put = take at lines ++ put ++ drop (at + removed) lines

-- `lines[row] = line` within the range.
abbrev pub set_line : List String → ℕ → String → List String
set_line lines row line = splice lines row 1 (line ∷ [])

-- `at(-1)` and `slice(0, -1)`.
abbrev pub last? {ℓ} : {A : Type ℓ} → List A → Option A
last? [] = none
last? (x ∷ []) = some x
last? (x ∷ y ∷ xs) = last? (y ∷ xs)

abbrev pub init {ℓ} : {A : Type ℓ} → List A → List A
init [] = []
init (x ∷ []) = []
init (x ∷ y ∷ xs) = x ∷ init (y ∷ xs)

-- `split("\n")` and `join`.
abbrev onto_first : Char → List String → List String
onto_first c [] = (String.◌∷◌ c String.[]) ∷ []
onto_first c (line ∷ lines) = (String.◌∷◌ c line) ∷ lines

abbrev ends_line : Char → Bool
ends_line c = (String.◌∷◌ c String.[]) == "\n"

unfoldable pub split_lines : String → List String
split_lines String.[] = "" ∷ []
split_lines (String.◌∷◌ c s) =
    let rest = split_lines s in if ends_line c then "" ∷ rest else onto_first c rest

unfoldable pub join : String → List String → String
join separator [] = ""
join separator (x ∷ []) = x
join separator (x ∷ y ∷ xs) = text_append x (text_append separator (join separator (y ∷ xs)))

pub split_lines-HasLine : (s : String) → 0 < length (split_lines s)
unfolding split_lines
split_lines-HasLine String.[] = omega arith
split_lines-HasLine (String.◌∷◌ c s) = elim (Bool-cases (ends_line c)) [
  | inl ends ↦ rw ends (omega arith)
  | inr other ↦ rw other (held (split_lines s))
]
  where
    held : (lines : List String) → 0 < length (onto_first c lines)
    held [] = omega arith
    held (line ∷ lines) = omega arith

join-onto_first :
    (c : Char) (separator : String) (lines : List String)
    → join separator (onto_first c lines) ≡ String.◌∷◌ c (join separator lines)
unfolding join
join-onto_first c separator [] = refl
join-onto_first c separator (line ∷ []) = refl
join-onto_first c separator (line ∷ next ∷ lines) =
    cons c line (text_append separator (join separator (next ∷ lines)))

join-blank :
    (separator : String) (lines : List String)
    → 0 < length lines
    → join separator ("" ∷ lines) ≡ text_append separator (join separator lines)
unfolding join
join-blank separator [] h = absurd (omega arith)
join-blank separator (line ∷ lines) h = nil (text_append separator (join separator (line ∷ lines)))

newline-cons : (c : Char) (s : String) → ends_line c ≡ true → text_append "\n" s ≡ String.◌∷◌ c s
newline-cons c s ends =
    ap (λ first. text_append first s) (sym ((eq_iff (String.◌∷◌ c String.[]) "\n").0 ends))
    ∙ cons c String.[] s
    ∙ ap (λ rest. String.◌∷◌ c rest) (nil s)

pub join-split_lines : (s : String) → join "\n" (split_lines s) ≡ s
unfolding split_lines join
join-split_lines String.[] = refl
join-split_lines (String.◌∷◌ c s) = elim (Bool-cases (ends_line c)) [
  | inl ends ↦ rw ends (
      join-blank "\n" (split_lines s) (split_lines-HasLine s)
      ∙ ap (λ rest. text_append "\n" rest) (join-split_lines s)
      ∙ newline-cons c s ends)
  | inr other ↦
      rw other (
        join-onto_first c "\n" (split_lines s)
        ∙ ap (λ rest. String.◌∷◌ c rest) (join-split_lines s))
]
