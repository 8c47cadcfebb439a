-- ===== src/Proxy.antt =====
-- robbie_proxy/main.py: which requests the model proxy forwards, and with which credential.
pub mod Paths
pub mod Upstream
pub mod Forward
