-- ===== src/Anchor.antt =====
-- robbie/anchor.py: which findings of a review become inline comments, and where they stand.
pub mod Json
pub mod Lines
pub mod Render
pub mod Place
pub mod Placed
pub mod Kept
pub mod Shown
pub use Place.*
