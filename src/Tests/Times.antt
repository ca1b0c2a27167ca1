-- ===== src/Tests/Times.antt =====
-- Times at work.
