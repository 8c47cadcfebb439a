-- ===== src/Orchestrator.antt =====
-- robbie/orchestrator.py: one pull request's turn through a tick, the review included.
pub mod Tick
pub mod Gate
pub mod Act
pub mod Admit
pub mod Slot
pub mod Notify
pub mod Approve
pub mod Deliver
pub mod Review
pub mod Turn
pub mod Cold
pub mod Seeded
pub mod Tolerance
pub mod Quiet
pub mod Untouched
pub mod Once
pub mod Arm
