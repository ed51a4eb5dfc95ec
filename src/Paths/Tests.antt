-- ===== src/Paths/Tests.antt =====
-- Paths of a directory and a file.
