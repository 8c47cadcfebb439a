-- ===== src/Github.antt =====
-- What robbie/github.py reads: pull requests, issues, review threads and CI checks.
pub mod Checks
pub mod Threads
pub mod Reads
pub mod Issues
unfoldable pub use Checks.*
unfoldable pub use Threads.*
