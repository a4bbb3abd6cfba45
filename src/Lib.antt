-- ===== src/Lib.antt =====
-- A model of the storage engine of mini_redis, with the theorems that make its parts correct.
--
-- The program keeps keys and values in a log-structured merge tree: a write goes to an in-memory
-- table, full tables are written to sorted files made of blocks, and a write-ahead log lets the
-- engine recover what was committed.
--
-- Wal/Record.antt models src/wal/record.cpp: Record::encode is encode, Record::decode is decode,
--   and the five static constructors are create_record, commit_record, rollback_record,
--   put_record and delete_record.
-- Wal/Log.antt models src/wal/wal.cpp: WAL::log is log, WAL::recover is recover, WAL::reset_file
--   is reset_file, and WAL::cleanWALFile is clean_wal_file.
-- Block.antt, Block/Codec.antt and Block/Search.antt model src/block/block.cpp: Block::add_entry
--   is add_entry, Block::encode and Block::decode are encode and decode, Block::get_value_binary
--   is get_value_binary.
-- Transaction/Context.antt models TranContext of src/lsm/transation.cpp: put, remove, get, commit
--   and abort are put, remove, get, commit and abort. Transaction/Manager.antt models
--   TranManager; Transaction/Updating.antt models the loop in update_max_finished_tranc_id with
--   several threads.
--
-- Meta.antt models src/block/blockmeta.cpp, and Bloom.antt src/utils/bloom_filter.cpp, where the
--   sizes that the constructor computes in floating point are arguments.
--
-- Lsm.antt models the class LSM of src/lsm/engine.cpp over the interface of the engine: the
--   constructor is open_lsm, the destructor close.
--
-- SkipList.antt models src/skiplist/skipList.cpp, and SkipList/Node.antt the nodes of
--   include/skiplist/skiplist.h: nodes stand on a heap, and put links them level by level. A
--   well-formed list is the record Holds of SkipList/Lookup.antt: along level 0 the entries in
--   order, on every level pointers to later ones. SkipList/Range.antt has end_preffix and the
--   walk of an iterator.
-- MemTable.antt models src/memtable/memtable.cpp over the interface of MemTable/Table.antt,
--   operations on a table and their laws, which SkipList/Table.antt fills with the skip list. The
--   random draws of a skip list are part of its table.
--
-- BlockCache.antt models src/block/block_cache.cpp: two lists of nodes with addresses, and the
--   map from keys to them. IsIndexed of BlockCache/Indexed.antt says that the map and the lists
--   agree.
--
-- Engine.antt is the interface of src/lsm/engine.cpp that transactions and the store call, and
--   Engine/Versions.antt an engine that keeps every version. MemTable/Engine.antt is the engine
--   whose data all stand in the memory table, as before the first flush; it fills the laws that
--   committing and recovering ask of an engine.
--
-- Storage.antt models the reads and the append of src/utils/files.cpp.
--
-- Bytes are numbers below 256 by construction of the encoders, a std::string is its list of
-- bytes, and keys are compared byte by byte. Integers of a fixed width wrap where the code
-- computes or stores them, or the theorem bounds them: ids, counts of requests and of accesses
-- are taken modulo 2 ^ 64, the ids that an SST and a block have in the cache are signed numbers,
-- and the lengths of keys and values in records and blocks are cut to 16 bits. A read or a write
-- outside a buffer is the outcome `fault`, an exception is `throws`.
--
-- Loops without a structural measure run on fuel, and running out of it is the outcome
-- `unfinished`. The decoder of log records gets one round for each byte, and takes eleven bytes
-- in a round. The binary search and the scan for a visible entry get one round more than there
-- are entries. A walk along a skip list gets one round more than nodes were ever made. flush_all
-- and the scan of the log cleaner get their fuel from the caller.
--
-- Not modelled: locks and threads, logging output, the parsing of file names, and the file system
-- behind the byte lists. std::hash is a parameter. What `sync` answers is an argument.
mod Common
mod Storage
pub mod Wal
pub mod Block
pub mod Engine
pub mod Meta
pub mod Bloom
pub mod Transaction
pub mod Lsm
pub mod SkipList
pub mod MemTable
pub mod BlockCache
