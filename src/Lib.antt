-- ===== src/Lib.antt =====
-- RocketJoe (Otterbrix): a document database with an in-memory storage per collection, a plan of
-- operators for each query, a write-ahead log and the metadata of the disk.
--
-- How the parts meet: a query's condition is a tree of expressions (components/expressions); the
-- plan generator (components/physical_plan_generator) turns it into operators
-- (components/physical_plan), which read the storage of a collection (services/collection) and
-- compare documents (components/document). Every statement that changes something is written to
-- the log (services/wal) first; databases and collections are kept in a metadata file
-- (services/disk). Both go through the file system of core/file.
--
-- The modules:
--   Base: shared names, lists and options over native numbers, signed integers, byte strings.
--   Limit: components/ql/aggregate/limit.hpp and limit.cpp, `limit_t`; Limit/Bounded: the part of
--     a list that a limit lets by.
--   Storage: the interface of `absl::btree_map`, which core/btree/btree.hpp takes from outside, as
--     the storage of a collection, and in Storage/Multi that of `absl::btree_multimap`, the storage of an
--     index; Storage/Assoc and Storage/MultiList: lists that meet them, for the tests.
--   Document: components/document/document.cpp, the two `compare` functions; nodes, elements, their
--     order and the lookup by pointer are parameters (the record `Documents`).
--   Oid: components/oid/oid.hpp, `oid_t` as its bytes; Oid/Text: ids as texts, Oid/Order: their order
--     and the time in them.
--   Cursor: components/cursor/cursor.cpp, `cursor_t`; Cursor/Reads: what it gives out.
--   Lexer: components/sql/lexer/lexer.cpp and token.hpp: the loops in Lexer, the kinds of tokens in
--     Lexer/Next, `next_token_` and the state around it in Lexer/Token; Lexer/Loops, Lexer/Bounds,
--     Lexer/Progress, Lexer/Tiles and Lexer/Query show where tokens begin and end.
--   Index: components/index: the index over one field in Index, index_engine.cpp in Index/Engine,
--     scan/index_scan.cpp in Index/Scan. Index/Search, Index/Split and Index/Ranges say what a search
--     returns, Index/Live and Index/Owned where the pointers of the engine lead, Index/Synced what a
--     plan finds with indexes, Index/Kept and Index/Inserted that inserting keeps indexes in step.
--   Expression: components/expressions/compare_expression.cpp, `compare_expression_t`.
--   Operators: components/physical_plan/collection/operators: Predicate (simple_predicate.cpp),
--     Collect (the loop that appends up to a limit), Scan (scan/*.cpp), Merge (merge/*.cpp), Plan
--     (create_plan_match.cpp and `operator_t::on_execute`); ById is the view of an output by ids,
--     Match states what a condition means and compares the executed plan with it; Opposite is about
--     comparisons that exclude each other. Write is
--     operator_insert.cpp and operator_delete.cpp, Stored what the storage holds after them. Join is
--     operator_join.cpp, its rows without loops in Join/Rows, its loops against them in Join/Full.
--     Aggregate is aggregate/operator_count.cpp, operator_min.cpp and operator_max.cpp; Aggregate/Extreme
--     says what they output.
--   File: core/file/local_file_system.cpp, the positioned read.
--   Wal: services/wal: dto.cpp, wal.cpp, base.hpp, record.hpp, record.cpp; Wal/Frames is the log as a list of
--     statements, Wal/Loops, Wal/Recovery and Wal/Acknowledged say what opening, loading and writing
--     do on it, Wal/Digits is a codec for the tests.
--   MemoryStorage: services/memory_storage/memory_storage.cpp, the actor that owns databases and
--     collections, its handlers as functions of state and message; MemoryStorage/Answers and
--     MemoryStorage/Load are about the replies, MemoryStorage/Names about what exists behind a plan.
--   Executor: services/collection/executor.cpp, the actor that runs the operators of a plan;
--     Executor/Order: the order of the sub-plans, Executor/Chain: what a plan comes to.
--   Metadata: services/disk/metadata.cpp; Metadata/Names: what exists after an operation,
--     Metadata/Reload: the text read back, Metadata/Clean and Metadata/Flush: names and file along
--     the operations.
--
-- Integers: ids of the log wrap at 2^64 (`next_id`), the length of a payload at 2^16 (`size_tt`), the
-- answers that a loading waits for at 2^64 (`decrement`), the index of a cursor at 2^31 (`succ_ℤ`).
-- The `int` that counts documents against a limit is a natural number: an operator appends fewer
-- than 2^31 documents.
--
-- The file system: what each `pread` answers is an argument of `read`. The log is read where none fails
-- or is cut short.
--
-- Fuel: `read_loop` has one round for each byte asked for, and every round that goes on reads one at
-- least. The
-- loops over a log (`init_id_loop`, `load_loop`) have one round more than the log has bytes, and a
-- record takes six at least. The loops over the metadata (`read_databases`, `read_collections`) have
-- one round more than the text has bytes, and each round passes a separator. The loops of the lexer
-- have one round more than the query has characters, and each round passes one. The executor cuts a
-- plan (`traverse_loop`) in one round more than it has operators, and runs (`run_sub_plans`) as many
-- rounds as the plan has sub-plans, each of which takes one from the stack.
--
-- Not modelled: msgpack, the form of each statement in it, and crc32c (the parameter `Codec`), the actor framework, the trace, threads,
-- how an operator that waits for the disk is resumed by its executor, the agents of disk indexes. What
-- an operator does when it is executed is a parameter of the executor. Sorting operators, sums and averages, groups, updates, the
-- SQL parser, the B+ tree, the document trie, the dispatcher and the bindings have no model here.
pub mod Base
pub mod Limit
pub mod Storage
pub mod Oid
pub mod Document
pub mod Expression
pub mod Cursor
pub mod Lexer
pub mod Index
pub mod Executor
pub mod Operators
pub mod MemoryStorage
pub mod Metadata
pub mod File
pub mod Wal
