-- ===== src/Viewport.antt =====
-- packages/nova-cli/src/viewport.ts: a window over more lines than fit. Heights and rows are natural
-- numbers, so that nothing is rounded.
pub mod Range
mod Examples
use circuit_agent.Prelude.{
  ℕ, zero, suc, ◌+◌, ◌-◌, ◌/◌, min, max, String, Bool, true, false, Option, none, some, List, [],
  ◌∷◌, leb, nat_eq, if◌then◌else◌, or_else, length, take, drop,
}

pub record ViewportState : Type 0 where
  pub lines : List String
  pub height : ℕ
  pub top : ℕ

pub data ViewportAction : Type 0 where
  up down : (rows : Option ℕ) → ViewportAction
  half_up half_down page_up page_down top bottom : ViewportAction
  resize : (height : ℕ) → ViewportAction
  content : (lines : List String) (follow : Bool) → ViewportAction

-- `-` stops at 0, which is the `Math.max(0, …)`.
unfoldable pub max_top : ViewportState → ℕ
max_top state = length state.lines - state.height

unfoldable pub clamp : ViewportState → ViewportState
unfolding max_top
clamp state =
    let bounded = record state { height = max 1 state.height } in
    record bounded { top = min bounded.top (max_top bounded) }

unfoldable pub new_viewport : List String → ℕ → ViewportState
unfolding clamp
new_viewport lines height = clamp (record { lines = lines; height = max 1 height; top = 0 })

abbrev pub at_row : ViewportState → ℕ → ViewportState
at_row state row = clamp (record state { top = row })

-- A row above the first is clamped to it, so the subtractions may stop at 0.
unfoldable pub apply_viewport : ViewportState → ViewportAction → ViewportState
unfolding clamp
apply_viewport state (up rows) = at_row state (state.top - max 1 (or_else rows 1))
apply_viewport state (down rows) = at_row state (state.top + max 1 (or_else rows 1))
apply_viewport state half_up = at_row state (state.top - max 1 (state.height / 2))
apply_viewport state half_down = at_row state (state.top + max 1 (state.height / 2))
apply_viewport state page_up = at_row state (state.top - max 1 (state.height - 1))
apply_viewport state page_down = at_row state (state.top + max 1 (state.height - 1))
apply_viewport state top = at_row state 0
apply_viewport state bottom = at_row state (max_top state)
apply_viewport state (resize height) = clamp (record state { height = height })
apply_viewport state (content lines follow) =
    let next = clamp (record state { lines = lines }) in
    if follow then at_row next (max_top next) else next

unfoldable pub visible_lines : ViewportState → List String
visible_lines state = take state.height (drop state.top state.lines)

unfoldable pub at_top : ViewportState → Bool
at_top state = leb state.top 0

unfoldable pub at_bottom : ViewportState → Bool
unfolding max_top
at_bottom state = leb (max_top state) state.top

-- A fraction, by its two numbers.
unfoldable pub scroll_fraction : ViewportState → ℕ × ℕ
unfolding max_top
scroll_fraction state = if nat_eq (max_top state) 0 then (1, 1) else (state.top, max_top state)

-- The states that a sequence of actions leads to.
unfoldable pub scrolled : ViewportState → List ViewportAction → ViewportState
unfolding apply_viewport
scrolled state [] = state
scrolled state (action ∷ actions) = scrolled (apply_viewport state action) actions
