-- ===== src/Metadata/Clean.antt =====
-- Names that are distinct and free of separators stay so.
use rocket_joe.Base.{
  ◌≡◌, refl, ap, Bool, true, false, not, Option, none, some, [], ◌∷◌, ◌++◌, arith, All, any-append,
  filter, if◌then◌else◌,
}
use mathlib.Core.Path.{subst}
use rocket_joe.Base.Bytes.{Bytes, bytes_eq, bytes_eq_iff, Lacks}
use rocket_joe.Metadata.{Data, Collections, find, assign, erase, contains}
use rocket_joe.Metadata.Names.{AreDistinct, find-assign, find-erase_ne, contains-remove}
use rocket_joe.Metadata.Reload.{AreClean, AreNew, IsCleanAfter, IsClean}

-- Distinct databases without `:` in their names, with distinct, clean collections.
abbrev pub AreGood : Data → Type 0
AreGood [] = Unit
AreGood ((name, cs) ∷ d) =
    (find name d ≡ none) × Lacks b':' name × AreClean cs × AreDistinct cs × AreGood d

AreNew-of_distinct :
    (had cs : Collections) → AreDistinct cs → All (λ c. contains had c ≡ false) cs → AreNew had cs
AreNew-of_distinct had [] h new = tt
AreNew-of_distinct had (c ∷ cs) h new =
    (new.0, AreNew-of_distinct (had ++ (c ∷ [])) cs h.1 (still cs h.0 new.1))
  where
    still :
        (ds : Collections)
        → contains ds c ≡ false
        → All (λ x. contains had x ≡ false) ds
        → All (λ x. contains (had ++ (c ∷ [])) x ≡ false) ds
    still [] g all = tt
    still (x ∷ ds) g all = (
      ground (
        arith,
        any-append (λ y. bytes_eq y x) had (c ∷ []),
        all.0,
        g,
        bytes_eq_iff x c,
        bytes_eq_iff c x,
      ),
      still ds (ground (arith, g)) all.1,
    )

All-absent : (cs : Collections) → All (λ c. contains [] c ≡ false) cs
All-absent [] = tt
All-absent (c ∷ cs) = (refl, All-absent cs)

find-append_none :
    (k name : Bytes) (cs : Collections) (old : Data)
    → find k old ≡ none
    → bytes_eq name k ≡ false
    → find k (old ++ ((name, cs) ∷ [])) ≡ none
unfolding find
find-append_none k name cs [] h ne = rw ne
find-append_none k name cs ((i, w) ∷ old) h ne = ground (arith, h, find-append_none k name cs old)

IsCleanAfter-of_good :
    (old d : Data) → AreGood d → All (λ e. find e.0 old ≡ none) d → IsCleanAfter old d
unfolding find
IsCleanAfter-of_good old [] h new = tt
IsCleanAfter-of_good old ((name, cs) ∷ d) h new = (
  new.0,
  h.1,
  h.2,
  AreNew-of_distinct [] cs h.3 (All-absent cs),
  IsCleanAfter-of_good (old ++ ((name, cs) ∷ [])) d h.4 (still d h.0 new.1),
)
  where
    still :
        (es : Data)
        → find name es ≡ none
        → All (λ e. find e.0 old ≡ none) es
        → All (λ e. find e.0 (old ++ ((name, cs) ∷ [])) ≡ none) es
    still [] g all = tt
    still ((k, w) ∷ es) g all = (
      find-append_none k name cs old all.0
          (ground (arith, g, bytes_eq_iff k name, bytes_eq_iff name k)),
      still es (ground (arith, g)) all.1,
    )

All-new : (d : Data) → All (λ e. find e.0 [] ≡ none) d
unfolding find
All-new [] = tt
All-new ((name, cs) ∷ d) = (refl, All-new d)

pub IsClean-of_good : (d : Data) → AreGood d → IsClean d
IsClean-of_good d h = IsCleanAfter-of_good [] d h (All-new d)

pub AreGood-assign :
    (db : Bytes) (cs : Collections) (d : Data)
    → Lacks b':' db
    → AreClean cs
    → AreDistinct cs
    → AreGood d
    → AreGood (assign db cs d)
unfolding assign find
AreGood-assign db cs [] lacks clean distinct h = (refl, lacks, clean, distinct, tt)
AreGood-assign db cs ((name, old) ∷ d) lacks clean distinct h =
    at_name (bytes_eq name db) refl (AreGood-assign db cs d lacks clean distinct h.4)
  where
    at_name :
        (b : Bool)
        → bytes_eq name db ≡ b
        → AreGood (assign db cs d)
        → AreGood (if b then (name, cs) ∷ d else (name, old) ∷ assign db cs d)
    at_name true e rest = (h.0, h.1, clean, distinct, h.4)
    at_name false e rest = (
      ground (arith, find-assign db name cs d, h.0, e, bytes_eq_iff db name, bytes_eq_iff name db),
      h.1,
      h.2,
      h.3,
      rest,
    )

pub AreGood-erase : (db : Bytes) (d : Data) → AreGood d → AreGood (erase db d)
unfolding erase find
AreGood-erase db [] h = tt
AreGood-erase db ((name, cs) ∷ d) h = at_name (bytes_eq name db) refl (AreGood-erase db d h.4)
  where
    at_name :
        (b : Bool)
        → bytes_eq name db ≡ b
        → AreGood (erase db d)
        → AreGood (if b then d else (name, cs) ∷ erase db d)
    at_name true e rest = h.4
    at_name false e rest = (
      ground (arith, find-erase_ne db name d, h.0, e, bytes_eq_iff db name, bytes_eq_iff name db),
      h.1,
      h.2,
      h.3,
      rest,
    )

-- what is good holds of the collections of a database
pub found-AreGood :
    (db : Bytes) (cs : Collections) (d : Data)
    → find db d ≡ some cs
    → AreGood d
    → Lacks b':' db × AreClean cs × AreDistinct cs
unfolding find
found-AreGood db cs [] e h = cc
found-AreGood db cs ((name, old) ∷ d) e h =
    at_name (bytes_eq name db) refl e (λ f. found-AreGood db cs d f h.4)
  where
    or_old : Option Collections → Collections
    or_old none = old
    or_old (some ds) = ds

    at_name :
        (b : Bool)
        → bytes_eq name db ≡ b
        → (if b then some old else find db d) ≡ some cs
        → (find db d ≡ some cs → Lacks b':' db × AreClean cs × AreDistinct cs)
        → Lacks b':' db × AreClean cs × AreDistinct cs
    at_name true same g rest =
        let cs_same : old ≡ cs = ap or_old g in
        (
          subst (λ x. Lacks b':' x) ((bytes_eq_iff name db).0 same) h.1,
          subst AreClean cs_same h.2,
          subst AreDistinct cs_same h.3,
        )
    at_name false same g rest = rest g

pub AreClean-append :
    (cs : Collections) (c : Bytes)
    → AreClean cs
    → Lacks b';' c
    → Lacks 0x0a c
    → AreClean (cs ++ (c ∷ []))
AreClean-append [] c h a b = (a, b, tt)
AreClean-append (x ∷ cs) c h a b = (h.0, h.1, AreClean-append cs c h.2 a b)

pub AreDistinct-append :
    (cs : Collections) (c : Bytes)
    → AreDistinct cs
    → contains cs c ≡ false
    → AreDistinct (cs ++ (c ∷ []))
AreDistinct-append [] c h e = (refl, tt)
AreDistinct-append (x ∷ cs) c h e = (
  ground (
    arith,
    any-append (λ y. bytes_eq y x) cs (c ∷ []),
    h.0,
    e,
    bytes_eq_iff x c,
    bytes_eq_iff c x,
  ),
  AreDistinct-append cs c h.1 (ground (arith, e)),
)

pub AreClean-remove :
    (c : Bytes) (cs : Collections) → AreClean cs → AreClean (filter (λ x. not (bytes_eq x c)) cs)
AreClean-remove c [] h = tt
AreClean-remove c (x ∷ cs) h = ground (arith, h, AreClean-remove c cs h.2)

pub AreDistinct-remove :
    (c : Bytes) (cs : Collections)
    → AreDistinct cs
    → AreDistinct (filter (λ x. not (bytes_eq x c)) cs)
AreDistinct-remove c [] h = tt
AreDistinct-remove c (x ∷ cs) h =
    ground (arith, h, contains-remove c x cs, AreDistinct-remove c cs h.1)
