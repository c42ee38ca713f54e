-- ===== src/Editor/Undo.antt =====
-- What undo, redo and the mark for unsaved changes promise.
use circuit_agent.Prelude.{
  ◌-◌, String, ◌≡◌, ◌≢◌, ◌⊎◌, inl, inr, refl, ap, Bool, true, false, Option, none, some, List, [],
  ◌∷◌, ◌++◌, arith, length, drop, get_or, length-append, Bool-cases, Option-cases, nat_eq, is_blank,
  ◌∙◌,
}
use circuit_agent.Editor.{
  EditorState, EditorAction, Snapshot, Place, Cursor, snapshot, latest, edited, next_state,
  apply_editor_action, undone, redone, find_match, begin_insert, erase_back, search_on, run_actions,
  insert, type_text, newline, backspace, delete_char, delete_line, undo, redo, search_next, move,
  jump, search_type, search_backspace, search_commit, nothing, clamp,
}
use circuit_agent.Editor.Text.{last?, text_length}
use circuit_agent.Editor.Arrays.{drop-append, last?-append}

-- The cap on the history drops the oldest snapshots only.
last?-latest :
    (history : List Snapshot) (newest : Snapshot)
    → last? (latest (history ++ newest ∷ [])) ≡ some newest
last?-latest history newest =
    let longer = length (history ++ newest ∷ []) in
    let same =
      drop-append (longer - 200) history newest
        (omega (arith, length-append history (newest ∷ []))) in
    ap last? same ∙ last?-append (drop (longer - 200) history) newest

-- An action kept the document and what is said of it, or changed it and can be undone.
pub record KeepsDocument (state after : EditorState) : Type 0 where
  pub lines : after.lines ≡ state.lines
  pub dirty : after.dirty ≡ state.dirty

pub record IsEdit (state after : EditorState) : Type 0 where
  pub newest : last? after.history ≡ some (snapshot state)
  pub dirty : after.dirty ≡ true

abbrev KeepsOrEdits : EditorState → EditorState → Type 0
KeepsOrEdits state after = KeepsDocument state after ⊎ IsEdit state after

edited-IsEdit :
    (state : EditorState) (lines : List String) (cursor : Cursor)
    → IsEdit state (edited state lines cursor)
edited-IsEdit state lines cursor = record {
  newest = last?-latest state.history (snapshot state);
  dirty = refl;
}

begin_insert_cases :
    (state : EditorState) (line : String) (at : Option Place)
    → KeepsOrEdits state (begin_insert state line at)
begin_insert_cases state line (some Place.below) =
    inr (record { newest = last?-latest state.history (snapshot state); dirty = refl })
begin_insert_cases state line (some Place.above) =
    inr (record { newest = last?-latest state.history (snapshot state); dirty = refl })
begin_insert_cases state line (some Place.after) = inl (record { lines = refl; dirty = refl })
begin_insert_cases state line (some Place.before) = inl (record { lines = refl; dirty = refl })
begin_insert_cases state line (some Place.line_start) = inl (record { lines = refl; dirty = refl })
begin_insert_cases state line (some Place.line_end) = inl (record { lines = refl; dirty = refl })
begin_insert_cases state line none = inl (record { lines = refl; dirty = refl })

erase_back_cases :
    (state : EditorState) (line : String) → KeepsOrEdits state (erase_back state line)
erase_back_cases state line = elim (Bool-cases (nat_eq state.cursor.col 0)) [
  | inr inside ↦ rw inside (inr (edited-IsEdit state _ _))
  | inl start ↦ elim (Bool-cases (nat_eq state.cursor.row 0)) [
    | inl top ↦ rw (start, top) (inl (record { lines = refl; dirty = refl }))
    | inr below ↦ rw (start, below) (inr (edited-IsEdit state _ _))
  ]
]

search_on-KeepsDocument : (state : EditorState) → KeepsDocument state (search_on state)
search_on-KeepsDocument state = elim (Bool-cases (is_blank state.search.query)) [
  | inl blank ↦ rw blank (record { lines = refl; dirty = refl })
  | inr asked ↦
      elim (Option-cases
        (find_match state.lines state.search.query state.cursor (length state.lines) 0)) [
          | inl e ↦ rw (asked, e) (record { lines = refl; dirty = refl })
          | inr (place, e) ↦ rw (asked, e) (record { lines = refl; dirty = refl })
        ]
]

-- The actions that go back, go forward, or save.
abbrev pub is_history : EditorAction → Bool
is_history undo = true
is_history redo = true
is_history _ = false

abbrev pub is_save : EditorAction → Bool
is_save EditorAction.save = true
is_save _ = false

apply_cases :
    (state : EditorState) (action : EditorAction)
    → is_history action ≡ false
    → is_save action ≡ false
    → KeepsOrEdits state (apply_editor_action state action).0
unfolding apply_editor_action next_state clamp
apply_cases state (insert at) h k =
    elim (begin_insert_cases state (get_or state.lines state.cursor.row "") at) [
      | inl same ↦ inl (record { lines = same.lines; dirty = same.dirty })
      | inr edit ↦ inr (record { newest = edit.newest; dirty = edit.dirty })
    ]
apply_cases state backspace h k =
    elim (erase_back_cases state (get_or state.lines state.cursor.row "")) [
      | inl same ↦ inl (record { lines = same.lines; dirty = same.dirty })
      | inr edit ↦ inr (record { newest = edit.newest; dirty = edit.dirty })
    ]
apply_cases state delete_char h k =
    elim (Bool-cases (nat_eq (text_length (get_or state.lines state.cursor.row "")) 0)) [
      | inl blank ↦ inl (record { lines = rw blank refl; dirty = rw blank refl })
      | inr inside ↦ inr (record {
        newest = rw inside (last?-latest state.history (snapshot state));
        dirty = rw inside refl;
      })
    ]
apply_cases state search_next h k =
    let same = search_on-KeepsDocument state in
    inl (record { lines = same.lines; dirty = same.dirty })
apply_cases state (type_text character) h k =
    inr (record { newest = last?-latest state.history (snapshot state); dirty = refl })
apply_cases state newline h k =
    inr (record { newest = last?-latest state.history (snapshot state); dirty = refl })
apply_cases state delete_line h k =
    inr (record { newest = last?-latest state.history (snapshot state); dirty = refl })
apply_cases state (move rows cols) h k = inl (record { lines = refl; dirty = refl })
apply_cases state (jump to) h k = inl (record { lines = refl; dirty = refl })
apply_cases state EditorAction.normal h k = inl (record { lines = refl; dirty = refl })
apply_cases state EditorAction.search h k = inl (record { lines = refl; dirty = refl })
apply_cases state (search_type character) h k = inl (record { lines = refl; dirty = refl })
apply_cases state search_backspace h k = inl (record { lines = refl; dirty = refl })
apply_cases state search_commit h k = inl (record { lines = refl; dirty = refl })
apply_cases state nothing h k = inl (record { lines = refl; dirty = refl })
apply_cases state EditorAction.quit h k = inl (record { lines = refl; dirty = refl })
apply_cases state (EditorAction.pending key) h k = inl (record { lines = refl; dirty = refl })
apply_cases state undo h k = cc
apply_cases state redo h k = cc
apply_cases state EditorAction.save h k = cc

save-lines :
    (state : EditorState) (action : EditorAction)
    → is_save action ≡ true
    → (apply_editor_action state action).0.lines ≡ state.lines
unfolding apply_editor_action next_state clamp
save-lines state EditorAction.save h = refl
save-lines state _ h = cc

undo-newest :
    (state : EditorState) (old : Snapshot)
    → last? state.history ≡ some old
    → ((apply_editor_action state undo).0.lines ≡ old.lines)
      × (last? (apply_editor_action state undo).0.future ≡ some (snapshot state))
unfolding apply_editor_action next_state clamp
undo-newest state old newest = (
  ap (λ o. (undone state o).lines) newest,
  ap (λ o. last? (undone state o).future) newest ∙ last?-append state.future (snapshot state),
)

redo-newest :
    (state : EditorState) (next : Snapshot)
    → last? state.future ≡ some next
    → (apply_editor_action state redo).0.lines ≡ next.lines
unfolding apply_editor_action next_state clamp
redo-newest state next newest = ap (λ o. (redone state o).lines) newest

-- If an action other than undo and redo changed the document, undo gives the old document back, and
-- redo after that the changed one.
pub undo-redo_lem :
    (state : EditorState) (action : EditorAction)
    → is_history action ≡ false
    → (apply_editor_action state action).0.lines ≢ state.lines
    → let after = (apply_editor_action state action).0 in
      let reverted = (apply_editor_action after undo).0 in
      (reverted.lines ≡ state.lines) × ((apply_editor_action reverted redo).0.lines ≡ after.lines)
undo-redo_lem state action h changed = elim (Bool-cases (is_save action)) [
  | inl saves ↦ absurd (changed (save-lines state action saves))
  | inr other ↦ elim (apply_cases state action h other) [
    | inl same ↦ absurd (changed same.lines)
    | inr edit ↦
        let after = (apply_editor_action state action).0 in
        let (lines, future) = undo-newest after (snapshot state) edit.newest in
        (lines, redo-newest (apply_editor_action after undo).0 (snapshot after) future)
  ]
]

-- Undo and redo leave the document as it was, or mark it as changed.
history_cases :
    (state : EditorState) (action : EditorAction)
    → is_history action ≡ true
    → let after = (apply_editor_action state action).0 in
      KeepsDocument state after ⊎ (after.dirty ≡ true)
unfolding apply_editor_action next_state clamp
history_cases state undo h = elim (Option-cases (last? state.history)) [
  | inl e ↦ inl (record { lines = rw e refl; dirty = rw e refl })
  | inr (old, e) ↦ inr (rw e refl)
]
history_cases state redo h = elim (Option-cases (last? state.future)) [
  | inl e ↦ inl (record { lines = rw e refl; dirty = rw e refl })
  | inr (next, e) ↦ inr (rw e refl)
]
history_cases state _ h = cc

kept_or_dirty :
    (state : EditorState) (action : EditorAction)
    → is_save action ≡ false
    → let after = (apply_editor_action state action).0 in
      KeepsDocument state after ⊎ (after.dirty ≡ true)
kept_or_dirty state action h = elim (Bool-cases (is_history action)) [
  | inl past ↦ history_cases state action past
  | inr other ↦ elim (apply_cases state action other h) [
    | inl same ↦ inl same
    | inr edit ↦ inr edit.dirty
  ]
]

abbrev pub NoSave : List EditorAction → Type 0
NoSave [] = Unit
NoSave (action ∷ actions) = (is_save action ≡ false) × NoSave actions

-- Once the editor is marked, it stays so until it is saved.
run_actions-dirty :
    (state : EditorState) (actions : List EditorAction)
    → NoSave actions
    → state.dirty ≡ true
    → (run_actions state actions).dirty ≡ true
unfolding run_actions
run_actions-dirty state [] h d = d
run_actions-dirty state (action ∷ actions) h d =
    run_actions-dirty (apply_editor_action state action).0 actions h.1
      (elim (kept_or_dirty state action h.0) [ inl same ↦ same.dirty ∙ d | inr marked ↦ marked ])

-- If no action of a sequence saves, and the editor shows no unsaved changes after it, then the
-- document is as it was before.
pub run_actions-clean :
    (state : EditorState) (actions : List EditorAction)
    → NoSave actions
    → (run_actions state actions).dirty ≡ false
    → (run_actions state actions).lines ≡ state.lines
unfolding run_actions
run_actions-clean state [] h clean = refl
run_actions-clean state (action ∷ actions) h clean =
    let next = (apply_editor_action state action).0 in
    elim (kept_or_dirty state action h.0) [
      | inl same ↦ run_actions-clean next actions h.1 clean ∙ same.lines
      | inr marked ↦ cc (clean, run_actions-dirty next actions h.1 marked)
    ]
