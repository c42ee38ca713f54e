-- ===== src/Editor.antt =====
-- packages/nova-cli/src/editor.ts: the modal text editor of the command line agent, a pure reducer
-- over its state.
pub mod Text
pub mod Arrays
pub mod WellFormed
pub mod Undo
pub mod Keys
pub mod Searching
pub mod Frame
mod Examples
use Prim.Native.String
use circuit_agent.Prelude.{
  ℕ, zero, suc, ◌+◌, ◌-◌, ◌*◌, ◌%◌, String, min, max, Bool, true, false, Option, none, some, List,
  [], ◌∷◌, ◌++◌, ltb, leb, nat_eq, if◌then◌else◌, length, drop, get_or, is_blank, template, or_else,
}
use circuit_agent.Editor.Text.{
  text_length, text_take, text_drop, text_append, index_of, next_word, previous_word, splice,
  set_line, last?, init, split_lines, join,
}

pub data EditorMode : Type 0 where
  normal insert : EditorMode

-- The source clamps a position below zero to zero wherever it can come up, so a position is a
-- natural number.
pub record Cursor : Type 0 where
  pub row : ℕ
  pub col : ℕ

pub record Snapshot : Type 0 where
  pub lines : List String
  pub cursor : Cursor

pub record Search : Type 0 where
  pub query : String
  pub typing : Bool

pub record EditorState : Type 0 where
  pub path : String
  pub lines : List String
  pub cursor : Cursor
  pub mode : EditorMode
  pub scroll : ℕ
  pub viewport_rows : ℕ
  pub dirty : Bool
  pub history : List Snapshot
  pub future : List Snapshot
  pub pending : Option String
  pub search : Search
  pub message : Option String

-- A number that may be negative, as the step of a motion.
pub data Step : Type 0 where
  back forth : ℕ → Step

pub data Target : Type 0 where
  line_start line_end file_start file_end word_forward word_back : Target

pub data Place : Type 0 where
  before after line_start line_end below above : Place

pub data EditorAction : Type 0 where
  move : (rows cols : Option Step) → EditorAction
  jump : Target → EditorAction
  insert : Option Place → EditorAction
  normal : EditorAction
  type_text : String → EditorAction
  newline backspace delete_char delete_line undo redo save quit search : EditorAction
  search_type : String → EditorAction
  search_backspace search_commit search_next : EditorAction
  pending : String → EditorAction
  nothing : EditorAction

pub data EditorEffect : Type 0 where
  save quit : EditorEffect

abbrev pub at_cursor : ℕ → ℕ → Cursor
at_cursor row col = record { row = row; col = col }

unfoldable pub initial_editor_state : String → String → ℕ → EditorState
initial_editor_state path content viewport_rows = record {
  path = path;
  lines = split_lines content;
  cursor = at_cursor 0 0;
  mode = EditorMode.normal;
  scroll = 0;
  viewport_rows = max 1 viewport_rows;
  dirty = false;
  history = [];
  future = [];
  pending = none;
  search = record { query = ""; typing = false };
  message = none;
}

unfoldable pub editor_content : EditorState → String
editor_content state = join "\n" state.lines

-- The last column that a cursor may have: after the last character in insert mode, on it in normal
-- mode.
abbrev pub col_limit : EditorMode → String → ℕ
col_limit EditorMode.insert line = text_length line
col_limit EditorMode.normal line = text_length line - 1

-- The window moves as little as brings the row back into it.
unfoldable pub follow : ℕ → ℕ → ℕ → ℕ → ℕ
follow row scroll viewport_rows count =
    let up = if ltb row scroll then row else scroll in
    let down = if leb (up + viewport_rows) row then suc row - viewport_rows else up in
    min down (count - 1)

-- `-` stops at 0, as do the calls of `Math.max`. The source would throw on a document without
-- lines, which no state reached from a document has.
unfoldable pub clamp : EditorState → EditorState
unfolding follow
clamp state =
    let row = min (length state.lines - 1) state.cursor.row in
    record state {
      cursor =
          at_cursor row (min (col_limit state.mode (get_or state.lines row "")) state.cursor.col);
      scroll = follow row state.scroll state.viewport_rows (length state.lines);
    }

abbrev pub snapshot : EditorState → Snapshot
snapshot state = record { lines = state.lines; cursor = state.cursor }

-- `slice(-200)`.
abbrev pub latest : List Snapshot → List Snapshot
latest history = drop (length history - 200) history

abbrev pub checkpoint : EditorState → EditorState
checkpoint state = record state {
  history = latest (state.history ++ snapshot state ∷ []);
  future = [];
}

abbrev pub moved : ℕ → Option Step → ℕ
moved n none = n
moved n (some (Step.back k)) = n - k
moved n (some (Step.forth k)) = n + k

abbrev pub jump_target : EditorState → String → Target → Cursor
jump_target state line Target.line_start = at_cursor state.cursor.row 0
jump_target state line Target.line_end = at_cursor state.cursor.row (text_length line)
jump_target state line Target.file_start = at_cursor 0 0
jump_target state line Target.file_end = at_cursor (length state.lines - 1) 0
jump_target state line Target.word_forward =
    at_cursor state.cursor.row (next_word line state.cursor.col)
jump_target state line Target.word_back =
    at_cursor state.cursor.row (previous_word line state.cursor.col)

-- `plain` before its clamp, and the clamped result without an effect.
abbrev pub settled : EditorState → EditorState
settled state = record state { pending = none }

-- A change of the document: checkpoint, new lines, new cursor.
abbrev pub edited : EditorState → List String → Cursor → EditorState
edited state lines cursor = record (checkpoint state) {
  lines = lines;
  cursor = cursor;
  dirty = true;
}

abbrev pub opened : EditorState → ℕ → EditorState
opened state at = record (edited state (splice state.lines at 0 ("" ∷ [])) (at_cursor at 0)) {
  mode = EditorMode.insert;
}

abbrev pub inserting : EditorState → ℕ → EditorState
inserting state col = record state {
  mode = EditorMode.insert;
  message = none;
  cursor = at_cursor state.cursor.row col;
}

abbrev pub begin_insert : EditorState → String → Option Place → EditorState
begin_insert state line (some Place.below) = opened state (state.cursor.row + 1)
begin_insert state line (some Place.above) = opened state state.cursor.row
begin_insert state line (some Place.after) = inserting state (state.cursor.col + 1)
begin_insert state line (some Place.line_start) = inserting state 0
begin_insert state line (some Place.line_end) = inserting state (text_length line)
begin_insert state line _ = inserting state state.cursor.col

abbrev pub type_character : EditorState → String → String → EditorState
type_character state line character =
    edited state
      (set_line state.lines state.cursor.row (
        text_append (text_take state.cursor.col line)
          (text_append character (text_drop state.cursor.col line))))
      (at_cursor state.cursor.row (state.cursor.col + text_length character))

abbrev pub break_line : EditorState → String → EditorState
break_line state line =
    edited state
      (splice state.lines state.cursor.row 1
        (text_take state.cursor.col line ∷ text_drop state.cursor.col line ∷ []))
      (at_cursor (state.cursor.row + 1) 0)

abbrev pub erase_back : EditorState → String → EditorState
erase_back state line =
    let above = state.cursor.row - 1 in
    let previous = get_or state.lines above "" in
    let joined =
      edited state (splice state.lines above 2 (text_append previous line ∷ []))
        (at_cursor above (text_length previous)) in
    let shortened =
      edited state
        (set_line state.lines state.cursor.row
          (text_append (text_take (state.cursor.col - 1) line) (text_drop state.cursor.col line)))
        (at_cursor state.cursor.row (state.cursor.col - 1)) in
    if nat_eq state.cursor.col 0
    then (if nat_eq state.cursor.row 0 then state else joined)
    else shortened

abbrev pub erase_char : EditorState → String → EditorState
erase_char state line =
    if nat_eq (text_length line) 0
    then state
    else edited state
        (set_line state.lines state.cursor.row
          (text_append (text_take state.cursor.col line) (text_drop (state.cursor.col + 1) line)))
        state.cursor

-- The document keeps at least one line.
abbrev pub some_line : List String → List String
some_line [] = "" ∷ []
some_line (line ∷ lines) = line ∷ lines

abbrev pub erase_line : EditorState → EditorState
erase_line state =
    edited state (some_line (splice state.lines state.cursor.row 1 []))
      (at_cursor state.cursor.row 0)

abbrev pub say : String → EditorState → EditorState
say message state = record state { message = some message }

abbrev pub undone : EditorState → Option Snapshot → EditorState
undone state none = say "nothing to undo" state
undone state (some previous) = record state {
  lines = previous.lines;
  cursor = previous.cursor;
  history = init state.history;
  future = state.future ++ snapshot state ∷ [];
  dirty = true;
  message = none;
}

abbrev pub redone : EditorState → Option Snapshot → EditorState
redone state none = say "nothing to redo" state
redone state (some next) = record state {
  lines = next.lines;
  cursor = next.cursor;
  future = init state.future;
  history = state.history ++ snapshot state ∷ [];
  dirty = true;
  message = none;
}

-- The loop over the rows from the cursor's on, around the end of the document: `left` rows are
-- left, the first of them `offset` rows on.
unfoldable pub find_match : List String → String → Cursor → (left offset : ℕ) → Option Cursor
find_match lines query cursor zero offset = none
find_match lines query cursor (suc left) offset =
    let row = (cursor.row + offset) % length lines in
    let rest = find_match lines query cursor left (offset + 1) in
    elim (index_of (get_or lines row "") query (if nat_eq offset 0 then cursor.col + 1 else 0)) [
      | none ↦ rest
      | some found ↦ some (at_cursor row found)
    ]

abbrev pub done_typing : EditorState → EditorState
done_typing state = record state { search = record { query = state.search.query; typing = false } }

abbrev pub search_on : EditorState → EditorState
search_on state =
    let query = state.search.query in
    let missed = say (template ("no match for \"" ∷ query ∷ "\"" ∷ [])) (done_typing state) in
    let searched : EditorState =
      elim (find_match state.lines query state.cursor (length state.lines) 0) [
        | none ↦ missed
        | some place ↦ record (done_typing state) { cursor = place; message = none }
      ] in
    if is_blank query then done_typing state else searched

-- What an action makes of the state, before the clamp.
unfoldable pub next_state : EditorState → String → EditorAction → EditorState
next_state state line (move rows cols) = record state {
  message = none;
  cursor = at_cursor (moved state.cursor.row rows) (moved state.cursor.col cols);
}
next_state state line (jump to) = record state {
  message = none;
  cursor = jump_target state line to;
}
next_state state line (insert at) = begin_insert state line at
next_state state line EditorAction.normal = record state {
  mode = EditorMode.normal;
  message = none;
}
next_state state line (type_text character) = type_character state line character
next_state state line newline = break_line state line
next_state state line backspace = erase_back state line
next_state state line delete_char = erase_char state line
next_state state line delete_line = erase_line state
next_state state line undo = undone state (last? state.history)
next_state state line redo = redone state (last? state.future)
next_state state line EditorAction.save = record state {
  dirty = false;
  message = some (template ("saved " ∷ state.path ∷ []));
}
next_state state line EditorAction.search = record state {
  search = record { query = ""; typing = true };
  message = none;
}
next_state state line (search_type character) = record state {
  search = record {
    query = text_append state.search.query character;
    typing = state.search.typing;
  };
}
next_state state line search_backspace = record state {
  search = record {
    query = text_take (text_length state.search.query - 1) state.search.query;
    typing = state.search.typing;
  };
}
next_state state line search_commit = done_typing state
next_state state line search_next = search_on state
next_state state line _ = state

abbrev pub plain : EditorState → EditorState
plain state = clamp (settled state)

unfoldable pub apply_editor_action : EditorState → EditorAction → EditorState × Option EditorEffect
apply_editor_action state EditorAction.quit = (state, some EditorEffect.quit)
apply_editor_action state (EditorAction.pending key) = (record state { pending = some key }, none)
apply_editor_action state EditorAction.save =
    (plain (next_state state "" EditorAction.save), some EditorEffect.save)
apply_editor_action state action =
    (plain (next_state state (get_or state.lines state.cursor.row "") action), none)

-- The states that a sequence of actions leads to.
unfoldable pub run_actions : EditorState → List EditorAction → EditorState
run_actions state [] = state
run_actions state (action ∷ actions) = run_actions (apply_editor_action state action).0 actions
