-- ===== src/Viewport/Range.antt =====
-- The window of packages/nova-cli/src/viewport.ts stays in its content, and every line can be seen.
use circuit_agent.Prelude.{
  ℕ, zero, suc, ◌+◌, ◌-◌, ◌≤◌, ◌<◌, min, String, ◌≡◌, refl, true, false, List, [], ◌∷◌, arith,
  length, drop, length-take,
}
use circuit_agent.Editor.Arrays.{length-drop}
use circuit_agent.Viewport.{
  ViewportState, ViewportAction, up, down, half_up, half_down, page_up, page_down, bottom, resize,
  content, max_top, clamp, new_viewport, apply_viewport, visible_lines, at_bottom, scrolled,
}

-- The window has a row, and as much of it as there is content for is filled.
pub record IsInRange (state : ViewportState) : Type 0 where
  pub has_row : 0 < state.height
  pub filled : state.top + min state.height (length state.lines) ≤ length state.lines

clamp-IsInRange : (state : ViewportState) → IsInRange (clamp state)
unfolding clamp max_top
clamp-IsInRange state = record { has_row = omega arith; filled = omega arith }

apply_viewport-IsInRange :
    (state : ViewportState) (action : ViewportAction) → IsInRange (apply_viewport state action)
unfolding apply_viewport
apply_viewport-IsInRange state (up rows) = clamp-IsInRange _
apply_viewport-IsInRange state (down rows) = clamp-IsInRange _
apply_viewport-IsInRange state half_up = clamp-IsInRange _
apply_viewport-IsInRange state half_down = clamp-IsInRange _
apply_viewport-IsInRange state page_up = clamp-IsInRange _
apply_viewport-IsInRange state page_down = clamp-IsInRange _
apply_viewport-IsInRange state ViewportAction.top = clamp-IsInRange _
apply_viewport-IsInRange state bottom = clamp-IsInRange _
apply_viewport-IsInRange state (resize height) = clamp-IsInRange _
apply_viewport-IsInRange state (content lines true) = clamp-IsInRange _
apply_viewport-IsInRange state (content lines false) = clamp-IsInRange _

scrolled-IsInRange :
    (state : ViewportState) (actions : List ViewportAction)
    → IsInRange state
    → IsInRange (scrolled state actions)
unfolding scrolled
scrolled-IsInRange state [] h = h
scrolled-IsInRange state (action ∷ actions) h =
    scrolled-IsInRange (apply_viewport state action) actions (apply_viewport-IsInRange state action)

-- However a new window is scrolled, resized or given new content, it shows as many lines as its
-- height allows, or all lines if these are fewer.
pub length-visible_lines :
    (lines : List String) (height : ℕ) (actions : List ViewportAction)
    → let state = scrolled (new_viewport lines height) actions in
      length (visible_lines state) ≡ min state.height (length state.lines)
unfolding visible_lines new_viewport
length-visible_lines lines height actions =
    let state = scrolled (new_viewport lines height) actions in
    let range = scrolled-IsInRange (new_viewport lines height) actions (clamp-IsInRange _) in
    let filled = range.filled in
    omega (
      arith,
      length-take state.height (drop state.top state.lines),
      length-drop state.top state.lines,
    )

abbrev pub pages : ℕ → List ViewportAction
pages zero = []
pages (suc n) = page_down ∷ pages n

-- One page further, no line is passed over, the content and the height stay, and the window moves
-- on unless it is at the end.
pub record IsPage (state after : ViewportState) : Type 0 where
  pub same_lines : after.lines ≡ state.lines
  pub same_height : after.height ≡ state.height
  pub no_gap : after.top ≤ state.top + state.height
  pub progress : min (suc state.top) (length state.lines - state.height) ≤ after.top

page_down-IsPage :
    (state : ViewportState) → IsInRange state → IsPage state (apply_viewport state page_down)
unfolding apply_viewport clamp max_top
page_down-IsPage state h =
    let has_row = h.has_row in
    record {
      same_lines = refl;
      same_height = omega arith;
      no_gap = omega arith;
      progress = omega arith;
    }

pages-reach :
    (state : ViewportState) (n : ℕ)
    → IsInRange state
    → length state.lines - state.height ≤ state.top + n
    → at_bottom (scrolled state (pages n)) ≡ true
unfolding scrolled at_bottom max_top
pages-reach state zero h enough = ground arith
pages-reach state (suc n) h enough =
    let next = apply_viewport state page_down in
    let page = page_down-IsPage state h in
    let progress = page.progress in
    let has_row = h.has_row in
    pages-reach next n (apply_viewport-IsInRange state page_down) (omega arith)

-- Each of the next pages begins within the window before it or just below it.
abbrev pub NoGaps : ViewportState → ℕ → Type 0
NoGaps state zero = Unit
NoGaps state (suc n) =
    let next = apply_viewport state page_down in
    (next.top ≤ state.top + state.height) × NoGaps next n

pages-NoGaps : (state : ViewportState) (n : ℕ) → IsInRange state → NoGaps state n
pages-NoGaps state zero h = tt
pages-NoGaps state (suc n) h = (
  (page_down-IsPage state h).no_gap,
  pages-NoGaps (apply_viewport state page_down) n (apply_viewport-IsInRange state page_down),
)

-- Paging down a new window as many times as there are lines reaches the end, and no page skips a
-- line: each begins within the window before it or just below it.
pub pages_lem :
    (lines : List String) (height : ℕ)
    → NoGaps (new_viewport lines height) (length lines)
      × (at_bottom (scrolled (new_viewport lines height) (pages (length lines))) ≡ true)
unfolding new_viewport clamp max_top
pages_lem lines height =
    let start = new_viewport lines height in
    let range : IsInRange start = clamp-IsInRange _ in
    (pages-NoGaps start (length lines) range, pages-reach start (length lines) range (omega arith))
