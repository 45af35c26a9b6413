-- ===== src/Metadata/Flush.antt =====
-- The file keeps up with the metadata.
use rocket_joe.Base.{
  ◌≡◌, refl, sym, ap, ◌∙◌, true, [], ◌∷◌, ◌++◌, Bool-cases, Option-cases, inl, inr,
}
use rocket_joe.Base.Bytes.{Bytes, Lacks}
use rocket_joe.Metadata.{
  Metadata, find, text, contains, is_exists_database, is_exists_collection, append_database,
  remove_database, append_collection, remove_collection, open_metadata, flush_,
}
use rocket_joe.Metadata.Reload.{open-flush}
use rocket_joe.Metadata.Clean.{
  AreGood, IsClean-of_good, AreGood-assign, AreGood-erase, found-AreGood, AreClean-append,
  AreDistinct-append, AreClean-remove, AreDistinct-remove,
}

-- The file holds the text of the data, whose names are distinct and free of separators.
pub record IsKept (m : Metadata) : Type 0 where
  pub same : m.file_ ≡ text m.data_
  pub good : AreGood m.data_

append_database-IsKept :
    (m : Metadata) (db : Bytes) → Lacks b':' db → IsKept m → IsKept (append_database m db true).0
unfolding append_database
append_database-IsKept m db lacks h = elim (Bool-cases (is_exists_database m db)) [
  | inl e ↦ rw e h
  | inr e ↦ rw e (record { same = refl; good = AreGood-assign db [] m.data_ lacks tt tt h.good })
]

remove_database-IsKept :
    (m : Metadata) (db : Bytes) → IsKept m → IsKept (remove_database m db true).0
unfolding remove_database
remove_database-IsKept m db h = elim (Bool-cases (is_exists_database m db)) [
  | inl e ↦ rw e (record { same = refl; good = AreGood-erase db m.data_ h.good })
  | inr e ↦ rw e h
]

append_collection-IsKept :
    (m : Metadata) (db c : Bytes)
    → Lacks b';' c
    → Lacks 0x0a c
    → IsKept m
    → IsKept (append_collection m db c true).0
unfolding append_collection is_exists_collection
append_collection-IsKept m db c a b h = elim (Option-cases (find db m.data_)) [
  | inl e ↦ rw (e, is_exists_collection) h
  | inr found ↦
      rw (found.1, is_exists_collection)
        (elim (Bool-cases (contains found.0 c)) [
          | inl e ↦ rw e h
          | inr e ↦
              let g = found-AreGood db found.0 m.data_ found.1 h.good in
              rw e (record {
                same = refl;
                good =
                    AreGood-assign db (found.0 ++ (c ∷ [])) m.data_ g.0
                      (AreClean-append found.0 c g.1 a b) (AreDistinct-append found.0 c g.2 e)
                      h.good;
              })
        ])
]

remove_collection-IsKept :
    (m : Metadata) (db c : Bytes) → IsKept m → IsKept (remove_collection m db c true).0
unfolding remove_collection
remove_collection-IsKept m db c h = elim (Option-cases (find db m.data_)) [
  | inl e ↦ rw e h
  | inr found ↦ rw (found.1) (elim (Bool-cases (contains found.0 c)) [
    | inl e ↦
        let g = found-AreGood db found.0 m.data_ found.1 h.good in
        rw e (record {
          same = refl;
          good =
              AreGood-assign db _ m.data_ g.0 (AreClean-remove c found.0 g.1)
                (AreDistinct-remove c found.0 g.2) h.good;
        })
    | inr e ↦ rw e h
  ])
]

-- The metadata that the operations lead to from an empty file, where the names that are appended
-- have no separators in them.
pub data Reached : Metadata → Type 0 where
  opened : Reached (open_metadata [])
  database_appended :
      {m : Metadata} (db : Bytes)
      → Lacks b':' db
      → Reached m
      → Reached (append_database m db true).0
  database_removed : {m : Metadata} (db : Bytes) → Reached m → Reached (remove_database m db true).0
  collection_appended :
      {m : Metadata} (db c : Bytes)
      → Lacks b';' c
      → Lacks 0x0a c
      → Reached m
      → Reached (append_collection m db c true).0
  collection_removed :
      {m : Metadata} (db c : Bytes) → Reached m → Reached (remove_collection m db c true).0

Reached-IsKept : (m : Metadata) → Reached m → IsKept m
unfolding open_metadata
Reached-IsKept m Reached.opened = record { same = refl; good = tt }
Reached-IsKept m (Reached.database_appended db lacks r) =
    append_database-IsKept _ db lacks (Reached-IsKept _ r)
Reached-IsKept m (Reached.database_removed db r) = remove_database-IsKept _ db (Reached-IsKept _ r)
Reached-IsKept m (Reached.collection_appended db c a b r) =
    append_collection-IsKept _ db c a b (Reached-IsKept _ r)
Reached-IsKept m (Reached.collection_removed db c r) =
    remove_collection-IsKept _ db c (Reached-IsKept _ r)

-- After any flushing operations from an empty file, where the names that are appended have no
-- separators in them, opening the file gives the metadata as it is.
pub open-file_ : (m : Metadata) → Reached m → open_metadata m.file_ ≡ m
unfolding flush_
open-file_ m r =
    let kept = Reached-IsKept m r in
    ap open_metadata kept.same
    ∙ open-flush m (IsClean-of_good m.data_ kept.good)
    ∙ ap (λ f. record { data_ = m.data_; file_ = f }) (sym kept.same)
