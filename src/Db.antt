-- ===== src/Db.antt =====
-- robbie/db.py: the SQLite state as tables, one function for each statement.
pub mod Tables
pub mod Reviews
pub mod Board
pub mod Money
pub mod Notices
