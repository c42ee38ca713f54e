-- ===== src/Editor/Examples.antt =====
-- Small documents in the editor of packages/nova-cli/src/editor.ts.
use circuit_agent.Prelude.{
  ◌-◌, min, String, ◌≡◌, ◌≢◌, refl, false, none, some, List, [], ◌∷◌, length, ap, arith, All, ◌+◌,
}
use circuit_agent.Editor.{
  EditorState, EditorAction, initial_editor_state, editor_content, run_actions, apply_editor_action,
  next_state, clamp, find_match, at_cursor, insert, type_text, newline, delete_line, undo, redo,
  nothing, move, Step,
}
use circuit_agent.Editor.Text.{
  text_length, text_take, text_drop, starts_with, first_place, index_of, split_lines,
}
use circuit_agent.Editor.WellFormed.{
  IsWellFormed, initial_editor_state-IsWellFormed, editor_content-initial_editor_state,
}
use circuit_agent.Editor.Undo.{undo-redo_lem, run_actions-clean}
use circuit_agent.Editor.Searching.{Searched, find_match_lem}
use circuit_agent.Editor.Frame.{FitsIn, compose_editor_frame, compose_editor_frame_lem}

abbrev document : String
document = "first line\nsecond"

abbrev opened_document : EditorState
opened_document = initial_editor_state "a.txt" document 20

abbrev typing : List EditorAction
typing = insert none ∷ type_text "x" ∷ newline ∷ EditorAction.normal ∷ []

typed_lines : (run_actions opened_document typing).lines ≡ ("x" ∷ "first line" ∷ "second" ∷ [])
unfolding run_actions apply_editor_action next_state clamp initial_editor_state text_take text_drop
    text_length split_lines
typed_lines = refl

initial_editor_state-IsWellFormed_example :
    IsWellFormed (run_actions (initial_editor_state "a.txt" document 20) typing)
initial_editor_state-IsWellFormed_example =
    initial_editor_state-IsWellFormed "a.txt" document 20 typing

editor_content-initial_editor_state_example :
    editor_content (initial_editor_state "a.txt" document 20) ≡ document
editor_content-initial_editor_state_example =
    editor_content-initial_editor_state "a.txt" document 20

deleted_differs : (apply_editor_action opened_document delete_line).0.lines ≢ opened_document.lines
unfolding apply_editor_action next_state clamp initial_editor_state split_lines
deleted_differs e = let shorter : 1 ≡ 2 = ap length e in absurd (omega (arith, shorter))

undo-redo_lem_example :
    let deleted = (apply_editor_action opened_document delete_line).0 in
    let reverted = (apply_editor_action deleted undo).0 in
    (reverted.lines ≡ opened_document.lines)
    × ((apply_editor_action reverted redo).0.lines ≡ deleted.lines)
undo-redo_lem_example = undo-redo_lem opened_document delete_line refl deleted_differs

abbrev looking : List EditorAction
looking = move (some (Step.forth 1)) none ∷ nothing ∷ []

still_clean : (run_actions opened_document looking).dirty ≡ false
unfolding run_actions apply_editor_action next_state clamp initial_editor_state split_lines
still_clean = refl

run_actions-clean_example : (run_actions opened_document looking).lines ≡ opened_document.lines
run_actions-clean_example = run_actions-clean opened_document looking (refl, (refl, tt)) still_clean

abbrev repeated : List String
repeated = "foo foo" ∷ []

-- The loop finds the second occurrence from the first, and none from the second: it does not come
-- back to the start of the row that it began on.
found_ahead : find_match repeated "foo" (at_cursor 0 0) 1 0 ≡ some (at_cursor 0 4)
unfolding find_match index_of first_place starts_with text_drop
found_ahead = refl

not_found_around : find_match repeated "foo" (at_cursor 0 4) 1 0 ≡ none
unfolding find_match index_of first_place starts_with text_drop
not_found_around = refl

find_match_lem_example :
    Searched repeated "foo"
      (at_cursor 0 4)
      (find_match repeated "foo" (at_cursor 0 4) (length repeated) 0)
find_match_lem_example = find_match_lem repeated "foo" (at_cursor 0 4) (omega arith)

compose_editor_frame_lem_example :
    All (FitsIn 12) (compose_editor_frame opened_document 12 none)
    × (length (compose_editor_frame opened_document 12 none)
        ≡ min opened_document.viewport_rows (length opened_document.lines - opened_document.scroll)
          + 2)
compose_editor_frame_lem_example = compose_editor_frame_lem opened_document 12 none
