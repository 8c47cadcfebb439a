-- ===== src/Github/Threads.antt =====
-- Review threads: the reading of `my_threads` and the three questions asked of a thread.
pub mod Reading
use claude_code_reviewer.Prelude.{
  ℕ, zero, suc, String, Bool, false, not, ◌&&◌, ◌||◌, Option, none, some, List, [], ◌∷◌, ◌++◌, map,
  ◌==◌, string_eq, get_or, if◌then◌else◌,
}

pub record Thread : Type 0 where
  pub path : String
  pub line : Option ℕ
  pub resolved : Bool
  pub outdated : Bool
  pub mine : String
  pub replies : List (String × String)
  pub node_id : String
  pub comment_id : ℕ
  pub mine_is_last : Bool

unfoldable pub live : Thread → Bool
live t = not t.resolved && not t.outdated

unfoldable pub awaiting_author : Thread → Bool
unfolding live
awaiting_author t = live t && t.mine_is_last

unfoldable pub answered : Thread → Bool
answered t = not t.resolved && not t.mine_is_last

-- One node of `comments`; a field that the answer left out is `none`.
pub record Comment : Type 0 where
  pub database_id : Option ℕ
  pub login : Option String
  pub body : Option String

pub record ThreadNode : Type 0 where
  pub id : Option String
  pub is_resolved : Bool
  pub is_outdated : Bool
  pub path : Option String
  pub line : Option ℕ
  pub comments : List Comment

-- One page of the GraphQL answer.
pub record Page : Type 0 where
  pub state : String
  pub nodes : List ThreadNode
  pub has_next : Bool
  pub end_cursor : String

abbrev pub or_text : Option String → String → String
or_text none d = d
or_text (some s) d = if s == "" then d else s

abbrev pub last_of : Comment → List Comment → Comment
last_of c [] = c
last_of c (d ∷ rest) = last_of d rest

-- `(c.author or {}).get("login") == reviewer`
abbrev pub wrote : String → Comment → Bool
wrote reviewer c = elim c.login [ none ↦ false | some who ↦ who == reviewer ]

abbrev pub reply_of : Comment → String × String
reply_of c = (or_text c.login "?", get_or c.body "")

-- The thread that one node with a first comment stands for.
unfoldable pub to_thread : String → ThreadNode → Comment → List Comment → Thread
to_thread reviewer node first rest = record {
  path = or_text node.path "?";
  line = node.line;
  resolved = node.is_resolved;
  outdated = node.is_outdated;
  mine = get_or first.body "";
  replies = map reply_of rest;
  node_id = get_or node.id "";
  comment_id = get_or first.database_id 0;
  mine_is_last = wrote reviewer (last_of first rest);
}

-- The body of the loop over `nodes`: nodes with no comment or another's first comment are skipped.
unfoldable pub thread_of : String → ThreadNode → List Comment → Option Thread
unfolding to_thread
thread_of reviewer node [] = none
thread_of reviewer node (first ∷ rest) =
    if wrote reviewer first then some (to_thread reviewer node first rest) else none

unfoldable pub threads_of : String → List ThreadNode → List Thread
unfolding thread_of
threads_of reviewer [] = []
threads_of reviewer (node ∷ nodes) =
    let rest = threads_of reviewer nodes in
    elim (thread_of reviewer node node.comments) [ none ↦ rest | some t ↦ t ∷ rest ]

pub record PrThreads : Type 0 where
  pub state : String
  pub threads : List Thread

-- The paging loop, on fuel: `fetch` answers a cursor ("" for the first page), `none` is a
-- `GhError`. It ends on the last page or on an empty cursor; no fuel left is `none` too.
unfoldable pub read_pages :
    (String → Option Page) → ℕ → String → List ThreadNode → Option (String × List ThreadNode)
read_pages fetch zero after nodes = none
read_pages fetch (suc fuel) after nodes = elim (fetch after) [
  | none ↦ none
  | some page ↦
      if not page.has_next || (page.end_cursor == "")
      then some (page.state, nodes ++ page.nodes)
      else read_pages fetch fuel page.end_cursor (nodes ++ page.nodes)
]

unfoldable pub my_threads : (String → Option Page) → ℕ → String → Option PrThreads
unfolding read_pages threads_of
my_threads fetch fuel reviewer = elim (read_pages fetch fuel "" []) [
  | none ↦ none
  | some (state, nodes) ↦ some (record { state = state; threads = threads_of reviewer nodes })
]
