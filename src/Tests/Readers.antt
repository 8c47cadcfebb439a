-- ===== src/Tests/Readers.antt =====
-- What is read from GitHub and from a model, at concrete inputs.
use claude_code_reviewer.Prelude.{
  split_newline, ◌&&◌, ℕ, ◌≡◌, refl, String, true, false, not, ◌||◌, Option, none, some, List, [],
  ◌∷◌, ◌++◌, ◌==◌, string_eq, all, join, strip, arith, if◌then◌else◌,
}
use claude_code_reviewer.Github.Checks.{Bucket}
use claude_code_reviewer.Github.Checks.Outcome.{some_kept, ci_outcome-raw}
use claude_code_reviewer.Github.{ci_outcome, red, waiting, green}
use claude_code_reviewer.Github.Threads.{Thread, Comment, ThreadNode, Page, my_threads, threads_of}
use claude_code_reviewer.Github.Threads.Reading.{Pages, all_nodes, last_state, my_threads_complete}
use claude_code_reviewer.Db.Tables.{comment}
use claude_code_reviewer.Contract.Blocks.{Blocks, block_lines, opens, closes}
use claude_code_reviewer.Contract.Blocks.Last.{block_lines-last}
use claude_code_reviewer.Contract.Verdicts.{parse_thread_verdicts}
use claude_code_reviewer.Contract.Verdicts.Valid.{has_body, opens_block, parse_thread_verdicts_lem}
use claude_code_reviewer.Tests.Data.{checks}

abbrev ignored : List String
ignored = "lint" ∷ []

ci_outcome-raw_example : ci_outcome checks ignored ≡ (
    if some_kept Bucket.failing ignored checks
    then red
    else if some_kept Bucket.running ignored checks || not (some_kept Bucket.passing ignored checks)
    then waiting
    else green)
ci_outcome-raw_example = ci_outcome-raw checks ignored

abbrev said_by : ℕ → String → Comment
said_by id who = record { database_id = some id; login = some who; body = some "Why?" }

abbrev node : List Comment → ThreadNode
node comments = record {
  id = some "n";
  is_resolved = false;
  is_outdated = false;
  path = some "a.rb";
  line = some 3;
  comments = comments;
}

abbrev first_page : Page
first_page = record {
  state = "OPEN";
  nodes = node (said_by 1 "robbie" ∷ said_by 2 "ann" ∷ []) ∷ [];
  has_next = true;
  end_cursor = "c";
}

abbrev last_page : Page
last_page = record {
  state = "OPEN";
  nodes = node (said_by 3 "ann" ∷ []) ∷ node (said_by 4 "robbie" ∷ []) ∷ [];
  has_next = false;
  end_cursor = "";
}

abbrev fetch : String → Option Page
fetch cursor =
    if cursor == "" then some first_page else if cursor == "c" then some last_page else none

abbrev two_pages : Pages fetch "" (first_page ∷ last_page ∷ [])
two_pages = Pages.next first_page refl refl (Pages.last last_page refl refl)

my_threads_complete_example :
    my_threads fetch 2 "robbie"
    ≡ some (record {
      state = last_state "" (first_page ∷ last_page ∷ []);
      threads = threads_of "robbie" (all_nodes (first_page ∷ last_page ∷ []));
    })
my_threads_complete_example =
    my_threads_complete fetch (first_page ∷ last_page ∷ []) 2 "robbie" two_pages (omega arith)

abbrev thread : Thread
thread = record {
  path = "a.rb";
  line = some 3;
  resolved = false;
  outdated = true;
  mine = "Why?";
  replies = [];
  node_id = "n";
  comment_id = 1;
  mine_is_last = false;
}

abbrev quoted : List String
quoted = "<<<VERDICT>>>" ∷ "ok" ∷ "<<<END>>>" ∷ []

block_lines-last_example :
    block_lines "VERDICT"
      (quoted ++ ("<<<VERDICT>>>" ∷ (("comment" ∷ []) ++ ("<<<END>>>" ∷ ("" ∷ [])))))
    ≡ strip (join "\n" ("comment" ∷ []))
unfolding opens closes
block_lines-last_example =
    block_lines-last "VERDICT" "<<<VERDICT>>>" "<<<END>>>" quoted ("comment" ∷ []) ("" ∷ []) refl
      refl refl refl refl

abbrev blocks : Blocks
blocks = record { verdict = some comment; github = "Two notes."; inline = "[]" }

abbrev answer_text : String
answer_text =
    "<<<THREAD 12>>>\nreply\nIt is guarded above.\n<<<END>>>\n<<<THREAD 13>>>\nreply\n<<<END>>>"

parse_thread_verdicts_lem_example :
    all
      (λ v. has_body v && opens_block (split_newline answer_text) v.comment_id)
      (parse_thread_verdicts answer_text)
    ≡ true
parse_thread_verdicts_lem_example = parse_thread_verdicts_lem answer_text
