-- ===== src/Viewport/Examples.antt =====
-- A small window of viewport.ts.
use circuit_agent.Prelude.{String, ◌≡◌, refl, true, List, [], ◌∷◌, length}
use circuit_agent.Viewport.{
  ViewportAction, page_down, bottom, new_viewport, visible_lines, at_bottom, scrolled,
  apply_viewport, clamp, max_top,
}
use circuit_agent.Viewport.Range.{NoGaps, pages, pages_lem}

abbrev text : List String
text = "a" ∷ "b" ∷ "c" ∷ "d" ∷ "e" ∷ []

abbrev moves : List ViewportAction
moves = page_down ∷ bottom ∷ []

last_page : visible_lines (scrolled (new_viewport text 3) moves) ≡ ("c" ∷ "d" ∷ "e" ∷ [])
unfolding visible_lines scrolled new_viewport apply_viewport clamp max_top
last_page = refl

pages_lem_example :
    NoGaps (new_viewport text 3) (length text)
    × (at_bottom (scrolled (new_viewport text 3) (pages (length text))) ≡ true)
pages_lem_example = pages_lem text 3
