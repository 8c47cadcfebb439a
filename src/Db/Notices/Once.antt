-- ===== src/Db/Notices/Once.antt =====
-- A notice goes out once.
use claude_code_reviewer.Prelude.{
  String, true, false, ◌≡◌, arith, eq_iff, string_eq, ◌==◌, if◌then◌else◌, ◌||◌,
}
use claude_code_reviewer.Db.Tables.{Db}
use claude_code_reviewer.Db.Notices.{notice_seen, notice_once}

-- A key is new exactly when it was not seen; afterwards it is seen, every other key is seen as it
-- was before, and asking again answers no and changes nothing.
pub notice_once_lem :
    (key : String) (db : Db)
    → ((notice_once key db).0 ≡ (if notice_seen db key then false else true))
      × ((k : String) → notice_seen (notice_once key db).1 k ≡ ((key == k) || notice_seen db k))
      × (notice_once key (notice_once key db).1 ≡ (false, (notice_once key db).1))
unfolding notice_once notice_seen
notice_once_lem key db =
    (ground arith, λ k. ground (arith, eq_iff key k), ground (arith, eq_iff key key))
