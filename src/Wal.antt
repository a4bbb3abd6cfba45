-- ===== src/Wal.antt =====
-- The write-ahead log (src/wal/record.cpp, src/wal/wal.cpp, include/wal/*.h).
pub mod Record
pub mod Log
