-- ===== src/Editor/Frame.antt =====
-- packages/nova-cli/src/editor.ts: the key bar, the status line and the rows of the screen.
use circuit_agent.Prelude.{
  truthy, ℕ, zero, suc, ◌+◌, ◌-◌, ◌≤◌, String, ◌≡◌, refl, inl, inr, Bool, true, false, ◌||◌, Option,
  none, some, List, [], ◌∷◌, ◌++◌, map, arith, tests, min, leb, nat_eq, if◌then◌else◌, or_else,
  template, decimal, length, take, drop, filter, includes, length-append, length-map, length-take,
  All, All-append, Bool-cases,
}
use circuit_agent.Editor.{EditorState, EditorMode}
use circuit_agent.Editor.Text.{text_length, text_take, text_drop, text_append, join}
use circuit_agent.Editor.Arrays.{length-drop}

pub record Hint : Type 0 where
  pub text : String
  pub essential : Bool

abbrev hint : String → Bool → Hint
hint text essential = record { text = text; essential = essential }

abbrev pub hints : List Hint
hints =
    hint "i insert" false
    ∷ hint "o new line" false
    ∷ hint "x del" false
    ∷ hint "dd del line" false
    ∷ hint "u undo" false
    ∷ hint "/ find" false
    ∷ hint "^S save" true
    ∷ hint "^Q quit" true
    ∷ []

abbrev pub optional : List String
optional = "i insert" ∷ "o new line" ∷ "x del" ∷ "dd del line" ∷ "u undo" ∷ "/ find" ∷ []

-- The bar without the last optional hints. No two hints have the same text.
unfoldable pub bar_without : ℕ → String
unfolding join
bar_without dropped =
    let keep = take (length optional - dropped) optional in
    join "   " (
      map (λ shown. shown.text)
        (filter (λ shown. shown.essential || includes keep shown.text) hints))

-- The loop over `dropped`, with the rounds that are left.
unfoldable pub first_fitting : ℕ → ℕ → ℕ → String
unfolding bar_without
first_fitting columns zero dropped = "^S save   ^Q quit"
first_fitting columns (suc left) dropped =
    let rest = first_fitting columns left (dropped + 1) in
    if leb (text_length (bar_without dropped)) columns then bar_without dropped else rest

unfoldable pub editor_key_bar : EditorState → ℕ → String
editor_key_bar state columns =
    if state.search.typing
    then template ("/" ∷ state.search.query ∷ "   enter next   esc done" ∷ [])
    else elim state.mode [
      | EditorMode.insert ↦ "esc normal   ^S save   ^Q quit"
      | EditorMode.normal ↦ first_fitting columns (suc (length optional)) 0
    ]

abbrev pub mode_name : EditorMode → String
mode_name EditorMode.normal = "normal"
mode_name EditorMode.insert = "insert"

unfoldable pub editor_status : EditorState → String
editor_status state = template (
    state.path
    ∷ (if state.dirty then " [+]" else "")
    ∷ "   "
    ∷ mode_name state.mode
    ∷ "   "
    ∷ decimal (state.cursor.row + 1)
    ∷ ":"
    ∷ decimal (state.cursor.col + 1)
    ∷ "   "
    ∷ decimal (length state.lines)
    ∷ " lines"
    ∷ [])

pub record NumberedLine : Type 0 where
  pub number : ℕ
  pub text : String

abbrev pub numbered : ℕ → List String → List NumberedLine
numbered first [] = []
numbered first (text ∷ texts) = record { number = first; text = text } ∷ numbered (suc first) texts

unfoldable pub visible_editor_lines : EditorState → List NumberedLine
visible_editor_lines state =
    numbered (state.scroll + 1) (take state.viewport_rows (drop state.scroll state.lines))

pub record EditorRow : Type 0 where
  pub text : String
  pub bold : Bool
  pub dim : Bool
  pub color : Option String

abbrev pub spaces : ℕ → String
spaces zero = ""
spaces (suc n) = text_append " " (spaces n)

abbrev pub pad_start : ℕ → String → String
pad_start n s = text_append (spaces (n - text_length s)) s

abbrev pub pad_end : ℕ → String → String
pad_end n s = text_append s (spaces (n - text_length s))

unfoldable pub caret_into : String → Option ℕ → String
caret_into text none = text
caret_into text (some col) =
    let padded = if leb (text_length text) col then pad_end (col + 1) text else text in
    template (text_take col padded ∷ "█" ∷ text_drop (col + 1) padded ∷ [])

unfoldable pub clip : ℕ → String → String
clip columns text = if leb (text_length text) columns then text else text_take (columns - 1) text

abbrev pub caret_of : EditorState → NumberedLine → Option ℕ
caret_of state entry =
    if nat_eq (entry.number - 1) state.cursor.row then some state.cursor.col else none

abbrev pub line_row : EditorState → ℕ → NumberedLine → EditorRow
line_row state columns entry = record {
  text = clip columns (
      template (
        pad_start (text_length (decimal (length state.lines))) (decimal entry.number)
        ∷ " "
        ∷ caret_into entry.text (caret_of state entry)
        ∷ []));
  bold = false;
  dim = false;
  color = none;
}

abbrev pub bottom_row : EditorState → ℕ → EditorRow
bottom_row state columns = record {
  text = clip columns (or_else state.message (editor_key_bar state columns));
  bold = false;
  dim = true;
  color = none;
}

unfoldable pub compose_editor_frame : EditorState → ℕ → Option String → List EditorRow
compose_editor_frame state columns accent =
    record {
      text = clip columns (editor_status state);
      bold = true;
      dim = false;
      color = truthy accent;
    }
      ∷ map (line_row state columns) (visible_editor_lines state)
    ++ bottom_row state columns ∷ []

text_length-text_take : (n : ℕ) (s : String) → text_length (text_take n s) ≤ n
unfolding text_take text_length
text_length-text_take zero s = omega arith
text_length-text_take (suc n) String.[] = omega arith
text_length-text_take (suc n) (String.◌∷◌ c s) = omega (arith, text_length-text_take n s)

text_length-clip : (columns : ℕ) (text : String) → text_length (clip columns text) ≤ columns
unfolding clip
text_length-clip columns text = elim (Bool-cases (leb (text_length text) columns)) [
  | inl fits ↦ rw fits (omega tests)
  | inr longer ↦ rw longer (omega (arith, text_length-text_take (columns - 1) text))
]

-- A row that is no wider than the screen.
abbrev pub FitsIn : ℕ → EditorRow → Type 0
FitsIn columns row = text_length row.text ≤ columns

line_rows-FitsIn :
    (state : EditorState) (columns : ℕ) (entries : List NumberedLine)
    → All (FitsIn columns) (map (line_row state columns) entries)
line_rows-FitsIn state columns [] = tt
line_rows-FitsIn state columns (entry ∷ entries) =
    (text_length-clip columns _, line_rows-FitsIn state columns entries)

length-numbered : (first : ℕ) (texts : List String) → length (numbered first texts) ≡ length texts
length-numbered first [] = refl
length-numbered first (text ∷ texts) = omega (arith, length-numbered (suc first) texts)

-- No row of the screen is wider than its columns, and besides the status and the key bar there is a
-- row for each line in the window.
pub compose_editor_frame_lem :
    (state : EditorState) (columns : ℕ) (accent : Option String)
    → All (FitsIn columns) (compose_editor_frame state columns accent)
      × (length (compose_editor_frame state columns accent)
          ≡ min state.viewport_rows (length state.lines - state.scroll) + 2)
unfolding compose_editor_frame visible_editor_lines
compose_editor_frame_lem state columns accent =
    let shown = take state.viewport_rows (drop state.scroll state.lines) in
    let entries = numbered (state.scroll + 1) shown in
    let rows = map (line_row state columns) entries in
    (
      (
        text_length-clip columns (editor_status state),
        All-append (FitsIn columns) rows (_ ∷ []) (line_rows-FitsIn state columns entries)
            (text_length-clip columns _, tt),
      ),
      omega (
        arith,
        length-append rows (bottom_row state columns ∷ []),
        length-map entries (line_row state columns),
        length-numbered (state.scroll + 1) shown,
        length-take state.viewport_rows (drop state.scroll state.lines),
        length-drop state.scroll state.lines,
      ),
    )
