-- ===== src/Editor/Keys.antt =====
-- packages/nova-cli/src/editor.ts: what a key means in the mode that it is pressed in.
use Prim.Native.Char.{code}
use circuit_agent.Prelude.{
  ℕ, String, Bool, true, false, ◌&&◌, ◌||◌, Option, none, some, ◌≡◌, refl, ◌⊎◌, inl, inr, leb,
  if◌then◌else◌, or_else, is_blank, ◌==◌, Bool-cases,
}
use circuit_agent.Editor.{
  EditorState, EditorMode, EditorAction, EditorEffect, Place, Step, Target, apply_editor_action,
  insert, type_text, newline, backspace, delete_char, delete_line, undo, redo, search_next, move,
  jump, search_type, search_backspace, search_commit, nothing, next_state, clamp,
}

pub record Key : Type 0 where
  pub name : Option String
  pub ctrl : Bool
  pub shift : Bool

-- `character && character.length === 1 && character >= " "`.
abbrev pub is_printable : String → Bool
is_printable String.[] = false
is_printable (String.◌∷◌ c s) = is_blank s && leb 32 (code c)

abbrev pub typed : Option String → (String → EditorAction) → EditorAction
typed none then_action = nothing
typed (some character) then_action =
    if is_printable character then then_action character else nothing

abbrev pub is_text : Option String → String → Bool
is_text none s = false
is_text (some character) s = character == s

abbrev pub is_enter : String → Bool
is_enter name = name == "return" || name == "enter"

unfoldable pub search_key : String → Option String → EditorAction
search_key name character =
    if name == "escape"
    then search_commit
    else if is_enter name
    then search_next
    else if name == "backspace"
    then search_backspace
    else typed character search_type

abbrev pub by_rows : Step → EditorAction
by_rows n = move (some n) none

abbrev pub by_cols : Step → EditorAction
by_cols n = move none (some n)

unfoldable pub insert_key : String → Option String → EditorAction
insert_key name character =
    if name == "escape"
    then EditorAction.normal
    else if is_enter name
    then newline
    else if name == "backspace"
    then backspace
    else if name == "up"
    then by_rows (Step.back 1)
    else if name == "down"
    then by_rows (Step.forth 1)
    else if name == "left"
    then by_cols (Step.back 1)
    else if name == "right"
    then by_cols (Step.forth 1)
    else if name == "tab"
    then type_text "  "
    else typed character type_text

-- The commands of normal mode, with no key pending.
unfoldable pub command_key : Bool → String → Option String → ℕ → EditorAction
command_key ctrl name character viewport_rows =
    if name == "escape"
    then EditorAction.normal
    else if name == "up" || is_text character "k"
    then by_rows (Step.back 1)
    else if name == "down" || is_text character "j"
    then by_rows (Step.forth 1)
    else if name == "left" || is_text character "h"
    then by_cols (Step.back 1)
    else if name == "right" || is_text character "l"
    then by_cols (Step.forth 1)
    else if name == "pageup"
    then by_rows (Step.back viewport_rows)
    else if name == "pagedown"
    then by_rows (Step.forth viewport_rows)
    else if is_text character "0" || name == "home"
    then jump Target.line_start
    else if is_text character "$" || name == "end"
    then jump Target.line_end
    else if is_text character "G"
    then jump Target.file_end
    else if is_text character "w"
    then jump Target.word_forward
    else if is_text character "b"
    then jump Target.word_back
    else if is_text character "i"
    then insert none
    else if is_text character "a"
    then insert (some Place.after)
    else if is_text character "I"
    then insert (some Place.line_start)
    else if is_text character "A"
    then insert (some Place.line_end)
    else if is_text character "o"
    then insert (some Place.below)
    else if is_text character "O"
    then insert (some Place.above)
    else if is_text character "x"
    then delete_char
    else if is_text character "u"
    then undo
    else if ctrl && name == "r"
    then redo
    else if is_text character "/"
    then EditorAction.search
    else if is_text character "n"
    then search_next
    else if is_text character "d"
    then EditorAction.pending "d"
    else if is_text character "g"
    then EditorAction.pending "g"
    else nothing

unfoldable pub key_to_editor_action : Key → Option String → EditorState → EditorAction
unfolding search_key insert_key command_key
key_to_editor_action key character state =
    let name = or_else key.name "" in
    if key.ctrl && name == "s"
    then EditorAction.save
    else if key.ctrl && (name == "q" || name == "c")
    then EditorAction.quit
    else if state.search.typing
    then search_key name character
    else elim state.mode [
      | EditorMode.insert ↦ insert_key name character
      | EditorMode.normal ↦
          if is_text state.pending "d"
          then (if name == "d" || is_text character "d" then delete_line else EditorAction.normal)
          else if is_text state.pending "g"
          then (if name == "g" || is_text character "g"
              then jump Target.file_start
              else EditorAction.normal)
          else command_key key.ctrl name character state.viewport_rows
    ]

abbrev pub escape : Key
escape = record { name = some "escape"; ctrl = false; shift = false }

-- What a key does: its action, applied.
abbrev pub press : Key → Option String → EditorState → EditorState × Option EditorEffect
press key character state = apply_editor_action state (key_to_editor_action key character state)

escape-action :
    (character : Option String) (state : EditorState)
    → is_text character "d" ≡ false
    → is_text character "g" ≡ false
    → key_to_editor_action escape character state
      ≡ (if state.search.typing then search_commit else EditorAction.normal)
unfolding key_to_editor_action search_key insert_key command_key
escape-action character state no_d no_g = elim (Bool-cases state.search.typing) [
  | inl typing ↦ rw typing refl
  | inr idle ↦ rw idle (in_mode state.mode)
]
  where
    in_mode :
        (mode : EditorMode)
        → (elim mode [
          | EditorMode.insert ↦ EditorAction.normal
          | EditorMode.normal ↦
              if is_text state.pending "d"
              then (if is_text character "d" then delete_line else EditorAction.normal)
              else if is_text state.pending "g"
              then (if is_text character "g" then jump Target.file_start else EditorAction.normal)
              else EditorAction.normal
        ])
          ≡ EditorAction.normal
    in_mode EditorMode.insert = refl
    in_mode EditorMode.normal = elim (Bool-cases (is_text state.pending "d")) [
      | inl d ↦ rw (d, no_d) refl
      | inr other ↦ elim (Bool-cases (is_text state.pending "g")) [
        | inl g ↦ rw (other, g, no_g) refl
        | inr neither ↦ rw (other, neither) refl
      ]
    ]

-- Escape, whose character is neither d nor g, never changes the document and never asks anything of
-- the host. It ends a search that is being typed and keeps the mode; else it leads to normal mode.
-- No key is pending after it.
pub escape_lem :
    (character : Option String) (state : EditorState)
    → is_text character "d" ≡ false
    → is_text character "g" ≡ false
    → let (after, effect) = press escape character state in
      (after.lines ≡ state.lines)
      × (effect ≡ none)
      × (after.pending ≡ none)
      × (after.search.typing ≡ false)
      × (((state.search.typing ≡ true) × (after.mode ≡ state.mode))
          ⊎ ((state.search.typing ≡ false) × (after.mode ≡ EditorMode.normal)))
unfolding apply_editor_action next_state clamp
escape_lem character state no_d no_g = elim (Bool-cases state.search.typing) [
  | inl typing ↦
      rw (escape-action character state no_d no_g, typing)
        (refl, refl, refl, refl, inl (refl, refl))
  | inr idle ↦
      rw (escape-action character state no_d no_g, idle) (refl, refl, refl, refl, inr (refl, refl))
]

abbrev pub chord : String → Bool → Key
chord name shift = record { name = some name; ctrl = true; shift = shift }

-- The keys for saving and quitting work in every state: with control, s saves the document and
-- marks it saved, and q and c quit with the state as it is.
pub ctrl_lem :
    (shift : Bool) (character : Option String) (state : EditorState)
    → ((press (chord "s" shift) character state).1 ≡ some EditorEffect.save)
      × ((press (chord "s" shift) character state).0.dirty ≡ false)
      × ((press (chord "s" shift) character state).0.lines ≡ state.lines)
      × (press (chord "q" shift) character state ≡ (state, some EditorEffect.quit))
      × (press (chord "c" shift) character state ≡ (state, some EditorEffect.quit))
unfolding key_to_editor_action apply_editor_action next_state clamp
ctrl_lem shift character state = (refl, refl, refl, refl, refl)
