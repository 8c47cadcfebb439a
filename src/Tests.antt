-- ===== src/Tests.antt =====
-- The theorems at concrete inputs.
mod Data
mod Policy
mod Store
mod Readers
mod Forms
mod Turns
mod Notes
mod Bugs
mod Cold
