-- ===== src/Github/Threads/Reading.antt =====
-- The paged read returns every thread of the reviewer, and each thread is somebody's move.
use claude_code_reviewer.Prelude.{
  ℕ, zero, suc, ◌≤◌, String, true, false, not, ◌&&◌, ◌||◌, Option, some, List, [], ◌∷◌, ◌++◌,
  length, ◌≡◌, arith, string_eq, ◌==◌,
}
use mathlib.Core.List.{append-nil, append_assoc}
use claude_code_reviewer.Github.Threads.{
  Thread, ThreadNode, Page, awaiting_author, answered, threads_of, read_pages, my_threads,
}

-- The pages from a cursor on: each but the last has a next page and a cursor to it.
pub data Pages (fetch : String → Option Page) : String → List Page → Type 0 where
  last :
      {cursor : String} (p : Page)
      → fetch cursor ≡ some p
      → (not p.has_next || (p.end_cursor == "")) ≡ true
      → Pages fetch cursor (p ∷ [])
  next :
      {cursor : String} {ps : List Page} (p : Page)
      → fetch cursor ≡ some p
      → (not p.has_next || (p.end_cursor == "")) ≡ false
      → Pages fetch p.end_cursor ps
      → Pages fetch cursor (p ∷ ps)

abbrev pub all_nodes : List Page → List ThreadNode
all_nodes [] = []
all_nodes (p ∷ ps) = p.nodes ++ all_nodes ps

abbrev pub last_state : String → List Page → String
last_state s [] = s
last_state s (p ∷ ps) = last_state p.state ps

read_pages_lem :
    {fetch : String → Option Page} {cursor : String} {ps : List Page} (fuel : ℕ)
    (nodes : List ThreadNode) (s : String)
    → Pages fetch cursor ps
    → length ps ≤ fuel
    → read_pages fetch fuel cursor nodes ≡ some (last_state s ps, nodes ++ all_nodes ps)
unfolding read_pages
read_pages_lem zero nodes s (last p e d) h = absurd (omega arith)
read_pages_lem zero nodes s (next p e d more) h = absurd (omega arith)
read_pages_lem (suc fuel) nodes s (last p e d) h = ground (arith, append-nil p.nodes)
read_pages_lem (suc fuel) nodes s (next {ps = later} p e d more) h = ground (
  arith,
  read_pages_lem fuel (nodes ++ p.nodes) p.state more (omega arith),
  append_assoc nodes p.nodes (all_nodes later),
)

-- With fuel for each page, the read is not cut short: it returns the threads of every node of
-- every page, in order, and the state that the last page gave.
pub my_threads_complete :
    (fetch : String → Option Page) (ps : List Page) (fuel : ℕ) (reviewer : String)
    → Pages fetch "" ps
    → length ps ≤ fuel
    → my_threads fetch fuel reviewer
      ≡ some (record { state = last_state "" ps; threads = threads_of reviewer (all_nodes ps) })
unfolding my_threads
my_threads_complete fetch ps fuel reviewer pages h =
    ground (arith, read_pages_lem fuel [] "" pages h)

-- An unresolved thread is somebody's move and never both: the reviewer's when another spoke last,
-- the author's when the reviewer spoke last and the code has not moved under it.
pub whose_move :
    (t : Thread)
    → (awaiting_author t && answered t ≡ false)
      × ((awaiting_author t || answered t)
          ≡ (not t.resolved && (not t.mine_is_last || not t.outdated)))
unfolding awaiting_author answered
whose_move t = ground arith
