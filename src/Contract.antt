-- ===== src/Contract.antt =====
-- robbie/contract.py: the delimited blocks that a model emits, and the reading of them.
pub mod Blocks
pub mod Prompt
pub mod Verdicts
