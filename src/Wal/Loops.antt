-- ===== src/Wal/Loops.antt =====
-- The loops over a log, on the records of statements, and the log that writing them makes.
use rocket_joe.Base.{
  ℕ, zero, suc, ◌+◌, ◌-◌, ◌%◌, ◌^◌, ◌≤◌, ◌<◌, ◌≡◌, refl, sym, ap, ◌∙◌, none, some, List, [], ◌∷◌,
  ◌++◌, arith, length, drop, length-append, append-nil, append_assoc,
}
use rocket_joe.Wal.{Codec, Wal, write_data_, next_index, init_id_loop, skip_records, load_loop}
use rocket_joe.Wal.Bytes.{frame}
use rocket_joe.Wal.Frames.{
  log_bytes, records, head_id, At, At-size-cons, At-size-nil, At-next, At-id, At-record-nil,
  At-record-cons,
}

-- A log that was created empty.
abbrev pub fresh : Wal
fresh = record { file = []; id_ = 0; last_crc32_ = 0 }

module _ (C : Codec) where
  open C use {Statement, crc32c, pack_entry, crc32c-lt, pack_entry-nonempty}

  -- The statements written one after the other.
  unfoldable pub write_all : Wal → List Statement → Wal
  write_all w [] = w
  write_all w (s ∷ ss) = write_all (write_data_ C w s) ss

  pub file-write_data :
      (w : Wal) (s : Statement)
      → w.id_ + 1 < 2 ^ 64
      → write_data_ C w s ≡ record {
        file = w.file ++ frame C (pack_entry w.last_crc32_ (w.id_ + 1) s);
        id_ = w.id_ + 1;
        last_crc32_ = crc32c (pack_entry w.last_crc32_ (w.id_ + 1) s);
      }
  unfolding write_data_
  file-write_data w s h = let e : (w.id_ + 1) % 2 ^ 64 ≡ w.id_ + 1 = omega arith in rw e

  pub file-write_all :
      (w : Wal) (ss : List Statement)
      → w.id_ + length ss < 2 ^ 64
      → ((write_all w ss).file ≡ w.file ++ log_bytes C w.last_crc32_ w.id_ ss)
        × ((write_all w ss).id_ ≡ w.id_ + length ss)
  unfolding write_all
  file-write_all w [] h = (sym (append-nil w.file), omega arith)
  file-write_all w (s ∷ ss) h =
      let rest =
        file-write_all
          (record {
            file = w.file ++ frame C (pack_entry w.last_crc32_ (w.id_ + 1) s);
            id_ = w.id_ + 1;
            last_crc32_ = crc32c (pack_entry w.last_crc32_ (w.id_ + 1) s);
          })
          ss (omega arith) in
      rw (file-write_data w s (omega arith), write_all)
        (
          rest.0
              ∙ append_assoc w.file (frame C (pack_entry w.last_crc32_ (w.id_ + 1) s))
                  (log_bytes C (crc32c (pack_entry w.last_crc32_ (w.id_ + 1) s)) (w.id_ + 1) ss),
          omega (arith, rest.1),
        )

  -- the records behind the first `n`
  pub sub_one : (n : ℕ) → n + 1 - 1 ≡ n
  sub_one n = omega arith

  pub At-skip :
      (n : ℕ) (file : List ℕ) (start last id : ℕ) (ss : List Statement)
      → At C file start last id ss
      → n ≤ length ss
      → (start' : ℕ) × (last' : ℕ) × (skip_records C n file start ≡ some start')
        × At C file start' last' (id + n) (drop n ss)
        × (records C last' (id + n) (drop n ss) ≡ drop n (records C last id ss))
  unfolding skip_records
  At-skip zero file start last id ss at h =
      let e : id + 0 ≡ id = omega arith in (start, last, refl, rw e at, rw e)
  At-skip (suc n) file start last id [] at h = absurd (omega arith)
  At-skip (suc n) file start last id (s ∷ ss) at h =
      let (start', last', skipped, at', same) =
        At-skip n file (next_index start (length (pack_entry last (id + 1) s)))
          (crc32c (pack_entry last (id + 1) s)) (id + 1) ss (At-next C file start last id s ss at)
          (omega arith) in
      let e : id + suc n ≡ id + 1 + n = omega arith in
      (
        start',
        last',
        rw (At-size-cons C file start last id s ss at)
            (ground (arith, skipped, pack_entry-nonempty last (id + 1) s)),
        rw e at',
        rw e same,
      )

  pub skip-too_many :
      (n : ℕ) (file : List ℕ) (start last id : ℕ) (ss : List Statement)
      → At C file start last id ss
      → length ss < n
      → skip_records C n file start ≡ none
  unfolding skip_records
  skip-too_many zero file start last id ss at h = absurd (omega arith)
  skip-too_many (suc n) file start last id [] at h = rw (At-size-nil C file start last id at)
  skip-too_many (suc n) file start last id (s ∷ ss) at h =
      rw (At-size-cons C file start last id s ss at) (
        ground (
          arith,
          skip-too_many n file (next_index start (length (pack_entry last (id + 1) s)))
              (crc32c (pack_entry last (id + 1) s)) (id + 1) ss
              (At-next C file start last id s ss at),
        ))

  pub load_loop-records :
      (fuel : ℕ) (file : List ℕ) (start last id : ℕ) (ss : List Statement)
      → At C file start last id ss
      → length ss < fuel
      → load_loop C fuel file start ≡ some (records C last id ss)
  unfolding load_loop
  load_loop-records zero file start last id ss at h = absurd (omega arith)
  load_loop-records (suc fuel) file start last id [] at h =
      rw (At-record-nil C file start last id at)
  load_loop-records (suc fuel) file start last id (s ∷ ss) at h =
      rw (At-record-cons C file start last id s ss at) (
        ground (
          arith,
          pack_entry-nonempty last (id + 1) s,
          load_loop-records fuel file (next_index start (length (pack_entry last (id + 1) s)))
              (crc32c (pack_entry last (id + 1) s)) (id + 1) ss
              (At-next C file start last id s ss at),
        ))

  pub init_id_loop-last :
      (fuel : ℕ) (file : List ℕ) (start last id : ℕ) (ss : List Statement)
      → At C file start last id ss
      → length ss < fuel
      → init_id_loop C fuel file start (head_id C id ss) id ≡ some (id + length ss)
  unfolding init_id_loop
  init_id_loop-last zero file start last id ss at h = absurd (omega arith)
  init_id_loop-last (suc fuel) file start last id [] at h = ground arith
  init_id_loop-last (suc fuel) file start last id (s ∷ ss) at h =
      rw
        (
          At-size-cons C file start last id s ss at,
          At-id C file (next_index start (length (pack_entry last (id + 1) s)))
              (crc32c (pack_entry last (id + 1) s)) (id + 1) ss
              (At-next C file start last id s ss at),
        )
        (ground (
          arith,
          init_id_loop-last fuel file (next_index start (length (pack_entry last (id + 1) s)))
              (crc32c (pack_entry last (id + 1) s)) (id + 1) ss
              (At-next C file start last id s ss at),
        ))

  pub head_id-drop :
      (n id : ℕ) (ss : List Statement) → n < length ss → head_id C id (drop n ss) ≡ id + 1
  head_id-drop zero id [] h = absurd (omega arith)
  head_id-drop zero id (s ∷ ss) h = refl
  head_id-drop (suc n) id [] h = absurd (omega arith)
  head_id-drop (suc n) id (s ∷ ss) h = head_id-drop n id ss (omega arith)

  pub length-records :
      (last id : ℕ) (ss : List Statement) → length (records C last id ss) ≡ length ss
  length-records last id [] = refl
  length-records last id (s ∷ ss) =
      ap suc (length-records (crc32c (pack_entry last (id + 1) s)) (id + 1) ss)

  -- a record takes six bytes at least, so the fuel of the loops is enough
  pub length-le-log_bytes :
      (last id : ℕ) (ss : List Statement) → length ss ≤ length (log_bytes C last id ss)
  length-le-log_bytes last id [] = omega arith
  length-le-log_bytes last id (s ∷ ss) = omega (
    arith,
    length-le-log_bytes (crc32c (pack_entry last (id + 1) s)) (id + 1) ss,
    length-append (frame C (pack_entry last (id + 1) s))
        (log_bytes C (crc32c (pack_entry last (id + 1) s)) (id + 1) ss),
  )
