-- ===== src/Lib.antt =====
-- A reviewer of pull requests: it watches the queue of a repository, decides whether a commit is
-- reviewed, runs a model in a container within a budget, and publishes what the model says.
--
-- The parts, with the module that models each and the code it is about (paths from the root of the
-- repository):
--
--   Triage (src/robbie/triage.py): `fields` reads an issue form, `verdict` decides what the form
--     settles, `touches_money` reads the model's answer. A mapping is a list of pairs in insertion
--     order. `verdict` returns `none` where the code raises a KeyError.
--   Config (src/robbie/config.py): the records that others read, and in Config.Arms the choice of a
--     model and its fallback. The digest of a key is an argument. Floats count in millionths.
--   Github (src/robbie/github.py): Github.Checks has the buckets of a commit's checks and what CI
--     says; Github.Threads the paged read of review threads. The source of pages is an argument and
--     the paging loop has fuel: as many steps as there are pages are enough.
--   Gates (src/robbie/gates.py): `evaluate`, the policy, on what Github read and Config says.
--   Db (src/robbie/db.py): the tables as lists of rows, each statement as a function on them, with
--     its result and row count. A nullable column is an Option; times are milliseconds.
--   Budget (src/robbie/budget.py): the spend gate, reading Db and Config through a clock that is an
--     argument. Budget.Slots has the reserve of a running container, from `_slot` of
--     src/robbie/orchestrator.py, as a step relation on dollars spent, dollars owed and runs in
--     flight; a schedule is a sequence of its steps. The money questions and the fixes, which spend
--     outside of `_slot`, are a step of their own.
--   Effects: what the code does outside itself. A turn is a function of the world to an answer,
--     a GhError or another exception, and the world after it: what was done before an exception
--     stays, and a call whose answer was lost may have taken effect. The world has the store, the
--     calls that GitHub took, the messages, and what a process remembers. Effects.Hub is GitHub,
--     as each call finds it: an argument. Effects.Keeps has the rules for properties that hold all
--     through a turn.
--   Anchor (src/robbie/anchor.py): which findings become inline comments, and where they stand.
--     `anchor` is `none` where an exception leaves it.
--   Slack (src/robbie/slack.py): who a message goes to, and the texts.
--   Publish (src/robbie/publish.py): each function that changes GitHub, with its dry run.
--   Orchestrator (src/robbie/orchestrator.py): Orchestrator.Tick has what a process stands on;
--     Orchestrator.Gate is `_gate`, Act `_act`, Turn `_handle`, Admit and Slot `_admit` and `_slot`,
--     Review and Deliver `_review` and `_deliver`, Approve and Notify what they tell and ask, Cold
--     the cold start and what is settled for a whole repository. Orchestrator.Quiet follows one
--     property through a quiet turn; Untouched instantiates it.
--   Sweep (src/robbie/threads.py) and CiWatch (src/robbie/ci_watch.py): the answers to replies, and
--     the watch over approvals that wait for a build. Both go through their rows in order.
--   Issues (src/robbie/issues.py) and Fixer (src/robbie/fixer.py): the ticks over the queue of bugs
--     and over the issues cleared for a fix, with the reads in Github.Issues and the settlement in
--     Publish.Issue. The container and GitHub's answers are arguments.
--   Contract (src/robbie/contract.py): the parsers of a model's answer: blocks, verdicts, decisions
--     on threads, the result of a fix; and the prompt of a fix.
--   PrTool (src/robbie_mcp/pr.py): which patch may become a pull request. The regular expression of
--     a header line is written as its scan.
--   Proxy (src/robbie_proxy/main.py): which request goes upstream, and with which credential.
--     `account_bearer`, which reads a file, is an argument; a TypeError that nothing catches is a
--     result of its own.
--   Prelude: shared names, Boolean tests, lists and the Python text methods that the code uses.
--     Letters outside ASCII keep their case in `lower` and `upper`.
--   Tests: the theorems at concrete inputs.
--
-- Not modelled: locks and tasks (a turn runs alone), the entry points of a tick of
-- reviews; network, subprocess and file access, which are arguments; the pages, and the prompts of
-- a review and of the replies; the panel's read-only queries of the store.
pub mod Prelude
pub mod Triage
pub mod Config
pub mod Effects
pub mod Anchor
pub mod Slack
pub mod Publish
pub mod Github
pub mod Gates
pub mod Db
pub mod Budget
pub mod Contract
pub mod PrTool
pub mod Proxy
pub mod Tests
pub mod Orchestrator
pub mod Sweep
pub mod Issues
pub mod Fixer
pub mod CiWatch
