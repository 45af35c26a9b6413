-- ===== src/Wal/Acknowledged.antt =====
-- What the log answers to a statement, and what it holds then.
use rocket_joe.Base.{ℕ, ◌≡◌, some}
use rocket_joe.Wal.{Codec, Wal, Record}
use rocket_joe.Wal.Frames.{entry_for}

module _ (C : Codec) where
  open C use {Statement, crc32c, pack_entry}

  -- the record of a statement and its id, whatever else it holds
  pub record IsRecordOf (id : ℕ) (s : Statement) (r : Record Statement) : Type 0 where
    pub last_crc32 : ℕ
    pub entry : r.entry ≡ some (entry_for C last_crc32 id s)
