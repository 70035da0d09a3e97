-- ===== src/Sys.antt =====
-- The helpers of sys/: text and system services.
pub mod Ascii
pub mod Text
