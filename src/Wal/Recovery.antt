-- ===== src/Wal/Recovery.antt =====
-- What a log that was written holds: its last id, and the records after a given id.
