-- ===== src/Web.antt =====
-- The browser: the names of the files that it writes.
pub mod FileNames
