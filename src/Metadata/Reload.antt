-- ===== src/Metadata/Reload.antt =====
-- Reading back the file that `flush_` writes.
use rocket_joe.Base.{
  ℕ, zero, suc, ◌+◌, ◌-◌, ◌≤◌, ◌<◌, ◌≡◌, refl, ap, ◌∙◌, true, false, none, some, [], ◌∷◌, ◌++◌,
  arith, length, lt→ltb, take-length, drop-length_suc, Option-cases, inl, inr, any-append,
  length-append, append-nil, append_assoc,
}
use Prim.Native.Nat.{compare, Ordering}
use rocket_joe.Base.Bytes.{Bytes, bytes_eq_refl, Lacks, find_byte, find_byte-append}
use rocket_joe.Metadata.{
  Metadata, Data, Collections, find, assign, contains, collections_text, text, flush_,
  append_database, append_collection, read_collections, read_line, read_databases, open_metadata,
}

-- The names of collections that the text keeps apart: without `;` and line ends.
abbrev pub AreClean : Collections → Type 0
AreClean [] = Unit
AreClean (c ∷ cs) = Lacks b';' c × Lacks 0x0a c × AreClean cs

-- Distinct collections, none of which is in `old`.
abbrev pub AreNew : Collections → Collections → Type 0
AreNew old [] = Unit
AreNew old (c ∷ cs) = (contains old c ≡ false) × AreNew (old ++ (c ∷ [])) cs

-- Distinct databases without `:` in their names, none of which is in `old`, with clean, distinct
-- collections.
abbrev pub IsCleanAfter : Data → Data → Type 0
IsCleanAfter old [] = Unit
IsCleanAfter old ((name, cs) ∷ d) =
    (find name old ≡ none)
    × Lacks b':' name
    × AreClean cs
    × AreNew [] cs
    × IsCleanAfter (old ++ ((name, cs) ∷ [])) d

abbrev pub IsClean : Data → Type 0
IsClean d = IsCleanAfter [] d

Lacks-collections_text : (cs : Collections) → AreClean cs → Lacks 0x0a (collections_text cs)
Lacks-collections_text [] h = refl
Lacks-collections_text (c ∷ cs) h = ground (
  arith,
  any-append (λ x. elim (compare x 0x0a) [ Ordering.eq ↦ true | _ ↦ false ]) c
      (b';' ∷ collections_text cs),
  Lacks-collections_text cs h.2,
  h.1,
)

find-last :
    (db : Bytes) (cs : Collections) (old : Data)
    → find db old ≡ none
    → find db (old ++ ((db, cs) ∷ [])) ≡ some cs
unfolding find
find-last db cs [] h = rw bytes_eq_refl
find-last db cs ((i, w) ∷ old) h = ground (arith, h, find-last db cs old)

assign-last :
    (db : Bytes) (cs new : Collections) (old : Data)
    → find db old ≡ none
    → assign db new (old ++ ((db, cs) ∷ [])) ≡ old ++ ((db, new) ∷ [])
unfolding find assign
assign-last db cs new [] h = rw bytes_eq_refl
assign-last db cs new ((i, w) ∷ old) h = ground (arith, h, assign-last db cs new old)

assign-new :
    (db : Bytes) (new : Collections) (old : Data)
    → find db old ≡ none
    → assign db new old ≡ old ++ ((db, new) ∷ [])
unfolding find assign
assign-new db new [] h = refl
assign-new db new ((i, w) ∷ old) h = ground (arith, h, assign-new db new old)

append_collection-last :
    (db c file : Bytes) (cs : Collections) (old : Data)
    → find db old ≡ none
    → contains cs c ≡ false
    → (append_collection (record { data_ = old ++ ((db, cs) ∷ []); file_ = file }) db c false).0
      ≡ record { data_ = old ++ ((db, cs ++ (c ∷ [])) ∷ []); file_ = file }
unfolding append_collection
append_collection-last db c file cs old new_db new_c =
    ground (arith, find-last db cs old new_db, assign-last db cs (cs ++ (c ∷ [])) old new_db, new_c)

append_database-new :
    (db file : Bytes) (old : Data)
    → find db old ≡ none
    → (append_database (record { data_ = old; file_ = file }) db false).0
      ≡ record { data_ = old ++ ((db, []) ∷ []); file_ = file }
unfolding append_database
append_database-new db file old h = ground (arith, h, assign-new db [] old h)

shorter : (c xs : Bytes) → length (c ++ (b';' ∷ xs)) - (length c + 1) ≡ length xs
shorter c xs = omega (arith, length-append c (b';' ∷ xs))

read_collections-text :
    (fuel : ℕ) (db file rest : Bytes) (cs had : Collections) (old : Data)
    → length cs < fuel
    → find db old ≡ none
    → AreClean cs
    → AreNew had cs
    → read_collections fuel db
        (collections_text cs ++ (0x0a ∷ rest))
        (some (length (collections_text cs)))
        (record { data_ = old ++ ((db, had) ∷ []); file_ = file })
      ≡ record { data_ = old ++ ((db, had ++ cs) ∷ []); file_ = file }
unfolding read_collections
read_collections-text zero db file rest cs had old f h clean new = absurd (omega arith)
read_collections-text (suc fuel) db file rest [] had old f h clean new =
    elim (Option-cases (find_byte b';' rest)) [
      | inl e ↦ ground (arith, e, append-nil had)
      | inr found ↦ ground (arith, found.1, append-nil had)
    ]
read_collections-text (suc fuel) db file rest (c ∷ cs) had old f h clean new =
    rw (append_assoc c (b';' ∷ collections_text cs) (0x0a ∷ rest)) (
      rw (find_byte-append b';' c (collections_text cs ++ (0x0a ∷ rest)) clean.0) (
        rw
          (
            take-length c (b';' ∷ (collections_text cs ++ (0x0a ∷ rest))),
            drop-length_suc c b';' (collections_text cs ++ (0x0a ∷ rest)),
            append_collection-last db c file had old h new.0,
          )
          (rw
            (
              shorter c (collections_text cs),
              lt→ltb (length c) (length (c ++ (b';' ∷ collections_text cs)))
                  (omega (arith, length-append c (b';' ∷ collections_text cs))),
            )
            (read_collections-text fuel db file rest cs (had ++ (c ∷ [])) old (omega arith) h
                clean.2 new.1
              ∙ ap (λ x. record { data_ = old ++ ((db, x) ∷ []); file_ = file })
                  (append_assoc had (c ∷ []) cs)))))

length-le-collections_text : (cs : Collections) → length cs ≤ length (collections_text cs)
length-le-collections_text [] = omega arith
length-le-collections_text (c ∷ cs) =
    omega (arith, length-append c (b';' ∷ collections_text cs), length-le-collections_text cs)

find_line_end :
    (cs : Collections) (rest : Bytes)
    → AreClean cs
    → find_byte 0x0a (collections_text cs ++ (0x0a ∷ rest)) ≡ some (length (collections_text cs))
find_line_end cs rest clean =
    find_byte-append 0x0a (collections_text cs) rest (Lacks-collections_text cs clean)

read_line-text :
    (name file rest : Bytes) (cs : Collections) (old : Data)
    → find name old ≡ none
    → AreClean cs
    → AreNew [] cs
    → read_line name (collections_text cs ++ (0x0a ∷ rest)) (record { data_ = old; file_ = file })
      ≡ record { data_ = old ++ ((name, cs) ∷ []); file_ = file }
unfolding read_line
read_line-text name file rest cs old h clean new =
    rw (find_line_end cs rest clean, append_database-new name file old h)
      (read_collections-text (suc (length (collections_text cs ++ (0x0a ∷ rest)))) name file rest cs
        [] old
        (omega
          (arith, length-append (collections_text cs) (0x0a ∷ rest), length-le-collections_text cs))
        h clean new)

read_databases-text :
    (fuel : ℕ) (file : Bytes) (d old : Data)
    → length d < fuel
    → IsCleanAfter old d
    → read_databases fuel (text d) (record { data_ = old; file_ = file })
      ≡ record { data_ = old ++ d; file_ = file }
unfolding read_databases
read_databases-text zero file d old f clean = absurd (omega arith)
read_databases-text (suc fuel) file [] old f clean = rw append-nil
read_databases-text (suc fuel) file ((name, cs) ∷ d) old f clean =
    rw (find_byte-append b':' name (collections_text cs ++ (0x0a ∷ text d)) clean.1) (
      rw
        (
          take-length name (b':' ∷ (collections_text cs ++ (0x0a ∷ text d))),
          drop-length_suc name b':' (collections_text cs ++ (0x0a ∷ text d)),
          find_line_end cs (text d) clean.2,
          drop-length_suc (collections_text cs) 0x0a (text d),
          read_line-text name file (text d) cs old clean.0 clean.2 clean.3,
        )
        (read_databases-text fuel file d (old ++ ((name, cs) ∷ [])) (omega arith) clean.4
          ∙ ap (λ x. record { data_ = x; file_ = file }) (append_assoc old ((name, cs) ∷ []) d)))

length-le-text : (d : Data) → length d ≤ length (text d)
length-le-text [] = omega arith
length-le-text ((name, cs) ∷ d) = omega (
  arith,
  length-append name (b':' ∷ (collections_text cs ++ (0x0a ∷ text d))),
  length-append (collections_text cs) (0x0a ∷ text d),
  length-le-text d,
)

-- Where the databases are distinct and have no `:` in their names, and the collections of each are
-- distinct and have no `;` and no line end in theirs, opening the file that `flush_` wrote gives
-- back the databases and collections, and their order.
pub open-flush : (m : Metadata) → IsClean m.data_ → open_metadata (flush_ m).file_ ≡ flush_ m
unfolding open_metadata flush_
open-flush m clean =
    read_databases-text (suc (length (text m.data_))) (text m.data_) m.data_ []
      (omega (arith, length-le-text m.data_)) clean
