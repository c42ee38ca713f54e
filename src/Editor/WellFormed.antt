-- ===== src/Editor/WellFormed.antt =====
-- The state invariant of the editor: a document with a line, the cursor in it, the cursor's row in
-- the window, and an undo stack within its limit.
use circuit_agent.Prelude.{
  ℕ, ◌+◌, ◌-◌, ◌≤◌, ◌<◌, String, ◌≡◌, refl, Option, none, some, List, [], ◌∷◌, ◌++◌, arith, length,
  get_or, All, All-append, length-append, inl, inr, Bool-cases, Option-cases, nat_eq, is_blank, sym,
  subst,
}
use circuit_agent.Editor.{
  EditorState, EditorAction, Snapshot, Place, Cursor, clamp, follow, col_limit, snapshot, edited,
  next_state, apply_editor_action, some_line, undone, redone, initial_editor_state, plain, settled,
  find_match, run_actions, editor_content, begin_insert, erase_back, search_on, at_cursor, insert,
  type_text, newline, backspace, delete_char, delete_line, undo, redo, search_next, move, jump,
  search_type, search_backspace, search_commit, nothing,
}
use circuit_agent.Editor.Text.{splice, last?, text_length, split_lines-HasLine, join-split_lines}
use circuit_agent.Editor.Arrays.{
  length-splice, length-drop, All-drop, All-init, All-last?, length-init,
}

abbrev pub HasLines : Snapshot → Type 0
HasLines old = 0 < length old.lines

-- What the clamp relies on.
pub record IsOpen (state : EditorState) : Type 0 where
  pub has_lines : 0 < length state.lines
  pub has_rows : 0 < state.viewport_rows
  pub past : All HasLines state.history
  pub ahead : All HasLines state.future
  pub kept : length state.history + length state.future ≤ 200

pub record IsWellFormed (state : EditorState) : Type 0 where
  pub base : IsOpen state
  pub row_in_document : state.cursor.row < length state.lines
  pub col_in_line : state.cursor.col ≤ col_limit state.mode (get_or state.lines state.cursor.row "")
  pub row_below_top : state.scroll ≤ state.cursor.row
  pub row_above_bottom : state.cursor.row < state.scroll + state.viewport_rows

clamp-IsWellFormed : (state : EditorState) → IsOpen state → IsWellFormed (clamp state)
unfolding clamp follow
clamp-IsWellFormed state h = record {
  base = record {
    has_lines = h.has_lines;
    has_rows = h.has_rows;
    past = h.past;
    ahead = h.ahead;
    kept = h.kept;
  };
  row_in_document = let some_lines = h.has_lines in omega arith;
  col_in_line = omega arith;
  row_below_top = let some_lines = h.has_lines in let some_rows = h.has_rows in ground arith;
  row_above_bottom = let some_lines = h.has_lines in let some_rows = h.has_rows in ground arith;
}

edited-IsOpen :
    (state : EditorState) (lines : List String) (cursor : Cursor)
    → IsOpen state
    → 0 < length lines
    → IsOpen (edited state lines cursor)
edited-IsOpen state lines cursor h some_lines =
    let longer = state.history ++ snapshot state ∷ [] in
    record {
      has_lines = some_lines;
      has_rows = h.has_rows;
      past =
          All-drop HasLines (length longer - 200) longer
            (All-append HasLines state.history (snapshot state ∷ []) h.past (h.has_lines, tt));
      ahead = tt;
      kept = omega (arith, length-drop (length longer - 200) longer);
    }

-- Whatever keeps the document, the window's height and the two stacks.
abbrev Carries : EditorState → EditorState → Type 0
Carries state after =
    (after.lines ≡ state.lines)
    × (after.viewport_rows ≡ state.viewport_rows)
    × (after.history ≡ state.history)
    × (after.future ≡ state.future)

carried-IsOpen : (state after : EditorState) → IsOpen state → Carries state after → IsOpen after
carried-IsOpen state after h (lines, rows, history, future) = record {
  has_lines = subst (λ l. 0 < length l) (sym lines) h.has_lines;
  has_rows = subst (λ n. 0 < n) (sym rows) h.has_rows;
  past = subst (All HasLines) (sym history) h.past;
  ahead = subst (All HasLines) (sym future) h.ahead;
  kept = rw (history, future) h.kept;
}

spliced-IsOpen :
    (state : EditorState) (at removed : ℕ) (line : String) (lines : List String) (cursor : Cursor)
    → IsOpen state
    → IsOpen (edited state (splice state.lines at removed (line ∷ lines)) cursor)
spliced-IsOpen state at removed line lines cursor h =
    edited-IsOpen state (splice state.lines at removed (line ∷ lines)) cursor h
      (omega (arith, length-splice state.lines at removed (line ∷ lines)))

some_line-HasLines : (lines : List String) → 0 < length (some_line lines)
some_line-HasLines [] = omega arith
some_line-HasLines (line ∷ lines) = omega arith

undone-IsOpen : (state : EditorState) → IsOpen state → IsOpen (undone state (last? state.history))
undone-IsOpen state h = elim (Option-cases (last? state.history)) [
  | inl e ↦ rw e (carried-IsOpen state (undone state none) h (refl, refl, refl, refl))
  | inr (previous, e) ↦ rw e (record {
    has_lines = All-last? HasLines state.history previous e h.past;
    has_rows = h.has_rows;
    past = All-init HasLines state.history h.past;
    ahead = All-append HasLines state.future (snapshot state ∷ []) h.ahead (h.has_lines, tt);
    kept =
        let most = h.kept in
        omega (
          arith,
          length-init state.history previous e,
          length-append state.future (snapshot state ∷ []),
        );
  })
]

redone-IsOpen : (state : EditorState) → IsOpen state → IsOpen (redone state (last? state.future))
redone-IsOpen state h = elim (Option-cases (last? state.future)) [
  | inl e ↦ rw e (carried-IsOpen state (redone state none) h (refl, refl, refl, refl))
  | inr (next, e) ↦ rw e (record {
    has_lines = All-last? HasLines state.future next e h.ahead;
    has_rows = h.has_rows;
    past = All-append HasLines state.history (snapshot state ∷ []) h.past (h.has_lines, tt);
    ahead = All-init HasLines state.future h.ahead;
    kept =
        let most = h.kept in
        omega (
          arith,
          length-init state.future next e,
          length-append state.history (snapshot state ∷ []),
        );
  })
]

begin_insert-IsOpen :
    (state : EditorState) (line : String) (at : Option Place)
    → IsOpen state
    → IsOpen (begin_insert state line at)
begin_insert-IsOpen state line (some Place.below) h =
    carried-IsOpen _ _
      (spliced-IsOpen state (state.cursor.row + 1) 0 "" [] (at_cursor (state.cursor.row + 1) 0) h)
      (refl, refl, refl, refl)
begin_insert-IsOpen state line (some Place.above) h =
    carried-IsOpen _ _
      (spliced-IsOpen state state.cursor.row 0 "" [] (at_cursor state.cursor.row 0) h)
      (refl, refl, refl, refl)
begin_insert-IsOpen state line (some Place.after) h =
    carried-IsOpen state _ h (refl, refl, refl, refl)
begin_insert-IsOpen state line (some Place.before) h =
    carried-IsOpen state _ h (refl, refl, refl, refl)
begin_insert-IsOpen state line (some Place.line_start) h =
    carried-IsOpen state _ h (refl, refl, refl, refl)
begin_insert-IsOpen state line (some Place.line_end) h =
    carried-IsOpen state _ h (refl, refl, refl, refl)
begin_insert-IsOpen state line none h = carried-IsOpen state _ h (refl, refl, refl, refl)

erase_back-IsOpen :
    (state : EditorState) (line : String) → IsOpen state → IsOpen (erase_back state line)
erase_back-IsOpen state line h = elim (Bool-cases (nat_eq state.cursor.col 0)) [
  | inr inside ↦ rw inside (spliced-IsOpen state state.cursor.row 1 _ [] _ h)
  | inl start ↦ elim (Bool-cases (nat_eq state.cursor.row 0)) [
    | inl top ↦ rw (start, top) h
    | inr below ↦ rw (start, below) (spliced-IsOpen state (state.cursor.row - 1) 2 _ [] _ h)
  ]
]

search_on-Carries : (state : EditorState) → Carries state (search_on state)
search_on-Carries state = elim (Bool-cases (is_blank state.search.query)) [
  | inl blank ↦ rw blank (refl, refl, refl, refl)
  | inr asked ↦
      elim (Option-cases
        (find_match state.lines state.search.query state.cursor (length state.lines) 0)) [
          | inl e ↦ rw (asked, e) (refl, refl, refl, refl)
          | inr (place, e) ↦ rw (asked, e) (refl, refl, refl, refl)
        ]
]

next_state-IsOpen :
    (state : EditorState) (line : String) (action : EditorAction)
    → IsOpen state
    → IsOpen (next_state state line action)
unfolding next_state
next_state-IsOpen state line (insert at) h = begin_insert-IsOpen state line at h
next_state-IsOpen state line (type_text character) h =
    spliced-IsOpen state state.cursor.row 1 _ [] _ h
next_state-IsOpen state line newline h = spliced-IsOpen state state.cursor.row 1 _ (_ ∷ []) _ h
next_state-IsOpen state line backspace h = erase_back-IsOpen state line h
next_state-IsOpen state line delete_char h = elim (Bool-cases (nat_eq (text_length line) 0)) [
  | inl blank ↦ rw blank h
  | inr inside ↦ rw inside (spliced-IsOpen state state.cursor.row 1 _ [] _ h)
]
next_state-IsOpen state line delete_line h =
    edited-IsOpen state (some_line (splice state.lines state.cursor.row 1 [])) _ h
      (some_line-HasLines (splice state.lines state.cursor.row 1 []))
next_state-IsOpen state line undo h = undone-IsOpen state h
next_state-IsOpen state line redo h = redone-IsOpen state h
next_state-IsOpen state line search_next h = carried-IsOpen state _ h (search_on-Carries state)
next_state-IsOpen state line (move rows cols) h = carried-IsOpen state _ h (refl, refl, refl, refl)
next_state-IsOpen state line (jump to) h = carried-IsOpen state _ h (refl, refl, refl, refl)
next_state-IsOpen state line EditorAction.normal h =
    carried-IsOpen state _ h (refl, refl, refl, refl)
next_state-IsOpen state line EditorAction.save h = carried-IsOpen state _ h (refl, refl, refl, refl)
next_state-IsOpen state line EditorAction.quit h = h
next_state-IsOpen state line EditorAction.search h =
    carried-IsOpen state _ h (refl, refl, refl, refl)
next_state-IsOpen state line (search_type character) h =
    carried-IsOpen state _ h (refl, refl, refl, refl)
next_state-IsOpen state line search_backspace h = carried-IsOpen state _ h (refl, refl, refl, refl)
next_state-IsOpen state line search_commit h = carried-IsOpen state _ h (refl, refl, refl, refl)
next_state-IsOpen state line (EditorAction.pending key) h = h
next_state-IsOpen state line nothing h = h

plain-IsWellFormed :
    (state : EditorState) (line : String) (action : EditorAction)
    → IsOpen state
    → IsWellFormed (plain (next_state state line action))
plain-IsWellFormed state line action h =
    clamp-IsWellFormed (settled (next_state state line action)) (
      carried-IsOpen (next_state state line action) _ (next_state-IsOpen state line action h)
        (refl, refl, refl, refl))

apply_editor_action-IsWellFormed :
    (state : EditorState) (action : EditorAction)
    → IsWellFormed state
    → IsWellFormed (apply_editor_action state action).0
unfolding apply_editor_action
apply_editor_action-IsWellFormed state EditorAction.quit h = h
apply_editor_action-IsWellFormed state (EditorAction.pending key) h = record {
  base = carried-IsOpen state _ h.base (refl, refl, refl, refl);
  row_in_document = h.row_in_document;
  col_in_line = h.col_in_line;
  row_below_top = h.row_below_top;
  row_above_bottom = h.row_above_bottom;
}
apply_editor_action-IsWellFormed state (move rows cols) h =
    plain-IsWellFormed state (get_or state.lines state.cursor.row "") (move rows cols) h.base
apply_editor_action-IsWellFormed state (jump to) h =
    plain-IsWellFormed state (get_or state.lines state.cursor.row "") (jump to) h.base
apply_editor_action-IsWellFormed state (insert at) h =
    plain-IsWellFormed state (get_or state.lines state.cursor.row "") (insert at) h.base
apply_editor_action-IsWellFormed state EditorAction.normal h =
    plain-IsWellFormed state (get_or state.lines state.cursor.row "") EditorAction.normal h.base
apply_editor_action-IsWellFormed state (type_text character) h =
    plain-IsWellFormed state (get_or state.lines state.cursor.row "") (type_text character) h.base
apply_editor_action-IsWellFormed state newline h =
    plain-IsWellFormed state (get_or state.lines state.cursor.row "") newline h.base
apply_editor_action-IsWellFormed state backspace h =
    plain-IsWellFormed state (get_or state.lines state.cursor.row "") backspace h.base
apply_editor_action-IsWellFormed state delete_char h =
    plain-IsWellFormed state (get_or state.lines state.cursor.row "") delete_char h.base
apply_editor_action-IsWellFormed state delete_line h =
    plain-IsWellFormed state (get_or state.lines state.cursor.row "") delete_line h.base
apply_editor_action-IsWellFormed state undo h =
    plain-IsWellFormed state (get_or state.lines state.cursor.row "") undo h.base
apply_editor_action-IsWellFormed state redo h =
    plain-IsWellFormed state (get_or state.lines state.cursor.row "") redo h.base
apply_editor_action-IsWellFormed state EditorAction.save h =
    plain-IsWellFormed state "" EditorAction.save h.base
apply_editor_action-IsWellFormed state EditorAction.search h =
    plain-IsWellFormed state (get_or state.lines state.cursor.row "") EditorAction.search h.base
apply_editor_action-IsWellFormed state (search_type character) h =
    plain-IsWellFormed state (get_or state.lines state.cursor.row "") (search_type character) h.base
apply_editor_action-IsWellFormed state search_backspace h =
    plain-IsWellFormed state (get_or state.lines state.cursor.row "") search_backspace h.base
apply_editor_action-IsWellFormed state search_commit h =
    plain-IsWellFormed state (get_or state.lines state.cursor.row "") search_commit h.base
apply_editor_action-IsWellFormed state search_next h =
    plain-IsWellFormed state (get_or state.lines state.cursor.row "") search_next h.base
apply_editor_action-IsWellFormed state nothing h =
    plain-IsWellFormed state (get_or state.lines state.cursor.row "") nothing h.base

run_actions-IsWellFormed :
    (state : EditorState) (actions : List EditorAction)
    → IsWellFormed state
    → IsWellFormed (run_actions state actions)
unfolding run_actions
run_actions-IsWellFormed state [] h = h
run_actions-IsWellFormed state (action ∷ actions) h =
    run_actions-IsWellFormed (apply_editor_action state action).0 actions
      (apply_editor_action-IsWellFormed state action h)

-- Whatever is done in an editor opened on a text: the document has a line, the cursor is on a row of
-- it, at a column that its mode allows there, and in the window; every document that can be undone
-- or redone has a line, and there are at most 200 of them.
pub initial_editor_state-IsWellFormed :
    (path content : String) (viewport_rows : ℕ) (actions : List EditorAction)
    → IsWellFormed (run_actions (initial_editor_state path content viewport_rows) actions)
unfolding initial_editor_state
initial_editor_state-IsWellFormed path content viewport_rows actions =
    let some_lines = split_lines-HasLine content in
    run_actions-IsWellFormed (initial_editor_state path content viewport_rows) actions (record {
      base = record {
        has_lines = some_lines;
        has_rows = omega arith;
        past = tt;
        ahead = tt;
        kept = omega arith;
      };
      row_in_document = some_lines;
      col_in_line = omega arith;
      row_below_top = omega arith;
      row_above_bottom = omega arith;
    })

-- The text that an editor is opened on is, exactly, the text that it would save.
pub editor_content-initial_editor_state :
    (path content : String) (viewport_rows : ℕ)
    → editor_content (initial_editor_state path content viewport_rows) ≡ content
unfolding editor_content initial_editor_state
editor_content-initial_editor_state path content viewport_rows = join-split_lines content
