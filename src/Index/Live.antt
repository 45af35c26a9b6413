-- ===== src/Index/Live.antt =====
-- The pointers of the engine: what `matching` finds by keys or by name is an index that the engine owns.
use rocket_joe.Base.{
  ℕ, ◌≡◌, refl, sym, ap, ◌∙◌, Bool, true, false, Option, none, some, List, [], ◌∷◌, ◌++◌, arith,
  All, All-map, All-snoc, ◌==◌, Option-cases, inl, inr, Bool-cases, >>=-of_some,
}
use mathlib.Core.Path.{subst}
use mathlib.Core.Option.{some-injective}
use native.Mathlib.Decide.{ℕ_discrete}
use rocket_joe.Base.Maps.{
  find_key, emplace, emplaced, erase_key, find_key-append, find_key-last, find_key-erase_ne,
}
use rocket_joe.Base.Bytes.{Bytes, bytes_eq, bytes_eq_refl}
use rocket_joe.Document.{Documents}
use rocket_joe.Index.{Fields, Tree, Index}
use rocket_joe.Index.Engine.{IndexEngine, vector_eq, add_index, drop_index, deref}

-- The entry's address is of an element of the heap that has the entry's key.
module _ {K I : Type 0} (field : I → K) where
  pub record Points (heap : List (ℕ × I)) (e : K × ℕ) : Type 0 where
    pub index : I
    pub found : find_key ◌==◌ e.1 heap ≡ some index
    pub same : field index ≡ e.0

  module _ (eq : K → K → Bool) (eq_refl : (a : K) → eq a a ≡ true) where
    emplace-Points :
        (heap : List (ℕ × I)) (m : List (K × ℕ)) (k : K) (p : ℕ) (i : I)
        → find_key ◌==◌ p heap ≡ none
        → field i ≡ k
        → All (Points heap) m
        → All (Points (heap ++ ((p, i) ∷ []))) (emplace eq m k p)
    emplace-Points heap m k p i fresh same h = placed (find_key eq k m)
      where
        kept : (n : List (K × ℕ)) → All (Points heap) n → All (Points (heap ++ ((p, i) ∷ []))) n
        kept n a =
            All-map n
              (λ e h. record {
                index = h.index;
                found = find_key-append e.1 heap ((p, i) ∷ []) h.index h.found;
                same = h.same;
              })
              a

        placed : (o : Option ℕ) → All (Points (heap ++ ((p, i) ∷ []))) (emplaced eq m k p o)
        placed none =
            All-snoc _ m (k, p) (kept m h)
              (record { index = i; found = find_key-last p heap i fresh; same = same })
        placed (some q) = kept m h

    apart :
        (heap : List (ℕ × I)) (e : K × ℕ) (p : ℕ) (i : I)
        → find_key ◌==◌ p heap ≡ some i
        → Points heap e
        → eq e.0 (field i) ≡ false
        → (e.1 == p) ≡ false
    apart heap e p i found h other = elim (ℕ_discrete e.1 p) [
      | yes at ↦
          let one : h.index ≡ i =
            some-injective h.index i (sym h.found ∙ ap (λ q. find_key ◌==◌ q heap) at ∙ found) in
          let same : eq e.0 (field i) ≡ true =
            ap (eq e.0) (ap field (sym one) ∙ h.same) ∙ eq_refl e.0 in
          ground (arith, other, same)
      | no ne ↦ ground (arith, ne)
    ]

    erase-Points :
        (heap : List (ℕ × I)) (m : List (K × ℕ)) (p : ℕ) (i : I)
        → find_key ◌==◌ p heap ≡ some i
        → All (Points heap) m
        → All (Points (erase_key ◌==◌ p heap)) (erase_key eq (field i) m)
    erase-Points heap [] p i found h = tt
    erase-Points heap (e ∷ m) p i found h = elim (Bool-cases (eq e.0 (field i))) [
      | inl same ↦ rw same (erase-Points heap m p i found h.1)
      | inr other ↦ rw other (
        record {
          index = h.0.index;
          found = find_key-erase_ne p e.1 heap (apart heap e p i found h.0 other) ∙ h.0.found;
          same = h.0.same;
        },
        erase-Points heap m p i found h.1,
      )
    ]

-- equality of vectors is sound where that of their elements is
module _ {K : Type 0} (eq : K → K → Bool) (eq_refl : (a : K) → eq a a ≡ true) where
  vector_eq_refl : (ks : List K) → vector_eq eq ks ks ≡ true
  vector_eq_refl [] = refl
  vector_eq_refl (k ∷ ks) = ground (arith, eq_refl k, vector_eq_refl ks)

module _ (D : Documents) (F : Fields D) (M : Tree D F) where
  open D use {Document, Key, get_document_id}

  abbrev pub keys_of : Index D F M → List Key
  keys_of index = index.keys

  abbrev pub name_of : Index D F M → Bytes
  name_of index = index.name

  pub record IsLive (engine : IndexEngine D F M) : Type 0 where
    pub mapper_ : All (Points keys_of engine.storage_) engine.mapper_
    pub index_to_name_ : All (Points name_of engine.storage_) engine.index_to_name_

  module _ (key_eq_refl : (k : Key) → F.key_eq k k ≡ true) where
    pub add_index-IsLive :
        (engine : IndexEngine D F M) (address : ℕ) (index : Index D F M)
        → deref D F M engine address ≡ none
        → IsLive engine
        → IsLive (add_index D F M engine index.keys address index).0
    unfolding add_index
    add_index-IsLive engine address index fresh live = record {
      mapper_ =
          emplace-Points keys_of (vector_eq F.key_eq) (vector_eq_refl F.key_eq key_eq_refl)
            engine.storage_ engine.mapper_ index.keys address index fresh refl live.mapper_;
      index_to_name_ =
          emplace-Points name_of bytes_eq bytes_eq_refl engine.storage_ engine.index_to_name_
            index.name address index fresh refl live.index_to_name_;
    }

    pub drop_index-IsLive :
        (engine next : IndexEngine D F M) (p : ℕ)
        → drop_index D F M engine p ≡ some next
        → IsLive engine
        → IsLive next
    unfolding drop_index
    drop_index-IsLive engine next p h live = elim (Option-cases (deref D F M engine p)) [
      | inl gone ↦ absurd (ground (arith, rw gone at h))
      | inr found ↦
          subst IsLive
            (some-injective _ next (sym (>>=-of_some (deref D F M engine p) _ found.1) ∙ h))
            (record {
              mapper_ =
                  erase-Points keys_of (vector_eq F.key_eq) (vector_eq_refl F.key_eq key_eq_refl)
                    engine.storage_ engine.mapper_ p found.0 found.1 live.mapper_;
              index_to_name_ =
                  erase-Points name_of bytes_eq bytes_eq_refl engine.storage_ engine.index_to_name_
                    p found.0 found.1 live.index_to_name_;
            })
    ]
