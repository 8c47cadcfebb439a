-- ===== src/Db/Notices.antt =====
-- One-shot notices and the cold-start mark.
pub mod Once
use claude_code_reviewer.Prelude.{
  String, Bool, true, false, ◌∷◌, contains, string_eq, if◌then◌else◌,
}
use claude_code_reviewer.Db.Tables.{Db}

unfoldable pub notice_seen : Db → String → Bool
notice_seen db key = contains db.notices key

-- `key` is the primary key: a second INSERT fails and answers False.
unfoldable pub notice_once : String → Db → Bool × Db
unfolding notice_seen
notice_once key db =
    if notice_seen db key then (false, db) else (true, record db { notices = key ∷ db.notices })

unfoldable pub is_seeded : Db → String → Bool
is_seeded db repo = contains db.seeded repo

unfoldable pub mark_seeded : String → Db → Db
mark_seeded repo db =
    if contains db.seeded repo then db else record db { seeded = repo ∷ db.seeded }
