-- ===== src/Tests/Notes.antt =====
-- What is anchored, posted and swept, at concrete inputs.
use claude_code_reviewer.Prelude.{
  ℕ, ◌+◌, ◌≤◌, String, false, not, some, List, [], ◌∷◌, ◌++◌, ◌≡◌, refl, length, count, map,
}
use claude_code_reviewer.Config.{nitpick}
use claude_code_reviewer.Github.Threads.{Thread}
use claude_code_reviewer.Contract.Verdicts.{ThreadVerdict, resolve}
use claude_code_reviewer.Anchor.Json.{pos, string, integer, Finding, field}
use claude_code_reviewer.Anchor.Render.{rank, severity, leftover}
use claude_code_reviewer.Anchor.Lines.{hunk, after_count, commentable_from}
use claude_code_reviewer.Anchor.Place.{
  Placed, Anchored, lines_at, on_lines, placed_at, place_inline, target, is_below, turn, add,
  add_to, place,
}
use claude_code_reviewer.Anchor.Placed.{IsTarget, target_lem, AreAnchored, place-AreAnchored}
use claude_code_reviewer.Anchor.Kept.{length-place}
use claude_code_reviewer.Anchor.Shown.{
  Row, context, added, removed, note, row_text, is_in_new, range, commentable_from-hunk,
}
use claude_code_reviewer.Publish.Texts.{bytes, assemble}
use claude_code_reviewer.Publish.Size.{bytes-assemble}
use claude_code_reviewer.Orchestrator.Tick.{is_quiet}
use claude_code_reviewer.CiWatch.{watch}
use claude_code_reviewer.CiWatch.Settled.{watch_quiet}
use claude_code_reviewer.Sweep.{nothing_done, answer_all}
use claude_code_reviewer.Sweep.Once.{Decides, total, answer_all-Decides}
use claude_code_reviewer.Tests.Data.{shop, store}
use claude_code_reviewer.Tests.Turns.{process, dry, world}

abbrev lines : List (String × List ℕ)
lines = ("a.py", 7 ∷ 8 ∷ 9 ∷ []) ∷ []

abbrev finding : Finding
finding =
    ("path", string "a.py")
    ∷ ("line", integer (pos 11))
    ∷ ("severity", string "critical")
    ∷ ("title", string "Off by one")
    ∷ ("body", string "The last row is lost.")
    ∷ []

abbrev findings : List Finding
findings = finding ∷ []

target_lem_example : IsTarget (7 ∷ 8 ∷ 9 ∷ []) (pos 11) (target (7 ∷ 8 ∷ 9 ∷ []) (pos 11))
target_lem_example = target_lem (7 ∷ 8 ∷ 9 ∷ []) (pos 11)

place-AreAnchored_example : AreAnchored lines (place "robbie" lines nitpick findings)
place-AreAnchored_example = place-AreAnchored "robbie" lines nitpick findings

abbrev one_left : Placed
one_left = record { comments = []; leftovers = "- `None` — (no title)\n\n  " ∷ []; folded = [] }

length-place_example :
    (length one_left.folded ≡ count (λ f. is_below nitpick (rank f)) ([] ∷ []))
    × (length one_left.comments + length one_left.leftovers
        ≡ count (λ f. not (is_below nitpick (rank f))) ([] ∷ []))
unfolding place add_to add turn is_below rank severity field place_inline placed_at lines_at
    on_lines leftover
length-place_example = length-place "robbie" lines nitpick ([] ∷ []) one_left refl

abbrev rows : List Row
rows = context "a" ∷ removed "b" ∷ added "c" ∷ note " No newline at end of file" ∷ []

commentable_from-hunk_example :
    commentable_from 0 ("@@ -1,2 +7,3 @@" ∷ map row_text rows ++ [])
    ≡ range 7 (count is_in_new rows) ++ commentable_from (count is_in_new rows + 7) []
unfolding hunk after_count
commentable_from-hunk_example = commentable_from-hunk 0 6 "@@ -1,2 +7,3 @@" rows [] refl

abbrev nothing_anchored : Anchored
nothing_anchored = record { comments = []; leftovers = ""; folded = ""; folded_count = 0 }

bytes-assemble_example :
    bytes (assemble "robbie" "m" "needs-work" "Fix it." nothing_anchored) ≤ 60018
bytes-assemble_example = bytes-assemble "robbie" "m" "needs-work" "Fix it." nothing_anchored

watch_quiet_example :
    ((watch dry world).1.db.reviews ≡ store.reviews) × ((watch dry world).1.writes ≡ [])
unfolding is_quiet
watch_quiet_example = watch_quiet dry world refl

abbrev thread : Thread
thread = record {
  path = "a.py";
  line = some 7;
  resolved = false;
  outdated = false;
  mine = "This is lost.";
  replies = ("ann", "Fixed.") ∷ [];
  node_id = "n1";
  comment_id = 5;
  mine_is_last = false;
}

abbrev decided : ThreadVerdict
decided = record { comment_id = 5; action = resolve; body = "" }

answer_all-Decides_example :
    Decides
      (total nothing_done + 1)
      (answer_all process shop 7 (decided ∷ []) (thread ∷ []) nothing_done world).0
answer_all-Decides_example =
    answer_all-Decides process shop 7 (decided ∷ []) (thread ∷ []) nothing_done world
