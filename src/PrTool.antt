-- ===== src/PrTool.antt =====
-- robbie_mcp/pr.py: the one write of the fixer.
pub mod Paths
pub mod Refuse
