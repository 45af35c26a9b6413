-- ===== src/Index/Scan.antt =====
-- operators/scan/index_scan.cpp: documents read from an index in memory.
use rocket_joe.Base.{
  ℕ, ◌+◌, Bool, true, false, Option, none, some, List, [], ◌∷◌, ◌++◌, if◌then◌else◌,
}
use rocket_joe.Limit.{Limit, check}
use rocket_joe.Document.{Documents, Value}
use rocket_joe.Expression.{CompareType}
use rocket_joe.Operators.{Output}
use rocket_joe.Index.{
  Fields, Tree, Index, IndexValue, Range, range_elements, cend, find_impl, lower_bound_impl,
  upper_bound_impl, is_disk,
}

-- `output_`, `count` and whether `search_by_index` has returned. The limit is checked before a
-- document is appended.
pub record Search (Doc : Type 0) : Type 0 where
  pub docs : List Doc
  pub count : ℕ
  pub returned : Bool

module _ {Doc : Type 0} (limit : Limit) where
  abbrev pub append_checked : IndexValue Doc → Search Doc → Search Doc
  append_checked v s =
      if check limit s.count
      then record { docs = s.docs ++ (v.doc ∷ []); count = s.count + 1; returned = s.returned }
      else record { docs = s.docs; count = s.count; returned = true }

  unfoldable pub append_range : {K : Type 0} → List (K × IndexValue Doc) → Search Doc → Search Doc
  append_range [] s = s
  append_range (e ∷ es) s =
      let rest = append_range es (append_checked e.1 s) in if s.returned then s else rest

module _ (D : Documents) (F : Fields D) (M : Tree D F) where
  open D use {Document, Key}

  unfoldable pub search_range_by_index : Index D F M → CompareType → Value D → List (Range D F M)
  search_range_by_index index CompareType.eq value = find_impl D F M index value ∷ []
  search_range_by_index index CompareType.ne value =
      lower_bound_impl D F M index value ∷ upper_bound_impl D F M index value ∷ []
  search_range_by_index index CompareType.gt value = upper_bound_impl D F M index value ∷ []
  search_range_by_index index CompareType.lt value = lower_bound_impl D F M index value ∷ []
  search_range_by_index index CompareType.gte value =
      find_impl D F M index value ∷ upper_bound_impl D F M index value ∷ []
  search_range_by_index index CompareType.lte value =
      lower_bound_impl D F M index value ∷ find_impl D F M index value ∷ []
  search_range_by_index index _ value =
      (cend D F M index, cend D F M index) ∷ (cend D F M index, cend D F M index) ∷ []

  unfoldable pub search_ranges :
      Limit → Index D F M → List (Range D F M) → Search Document → Search Document
  unfolding append_range
  search_ranges limit index [] s = s
  search_ranges limit index (r ∷ rs) s =
      search_ranges limit index rs (append_range limit (range_elements D F M index r) s)

  unfoldable pub search_by_index : Index D F M → CompareType → Value D → Limit → List Document
  unfolding search_ranges search_range_by_index append_range
  search_by_index index t value limit =
      (search_ranges limit index (search_range_by_index index t value)
        (record { docs = []; count = 0; returned = false })).docs

  -- `waiting`: the query has gone to the agent of a disk index, and the operator waits for it.
  pub data Scanned : Type 0 where
    waiting : ℕ → Value D → CompareType → Scanned
    done : Output Document → Scanned

  abbrev pub search_index_memory :
      Option (Index D F M) → CompareType → Option (Value D) → Limit → Option (Output Document)
  search_index_memory none t value limit = some (some [])
  search_index_memory (some index) t none limit = none
  search_index_memory (some index) t (some value) limit =
      some (some (search_by_index index t value limit))

  -- `on_resume_impl` for the index that the engine finds for the key, and the value that
  -- `get_parameter` finds. `none` where there is no such value: the code then returns a reference
  -- to a temporary.
  abbrev pub on_resume_impl :
      Option (Index D F M) → CompareType → Option (Value D) → Limit → Option (Output Document)
  on_resume_impl index t value limit =
      if check limit 0 then search_index_memory index t value limit else some none

  abbrev pub finish : Option (Output Document) → Option Scanned
  finish none = none
  finish (some out) = some (Scanned.done out)

  abbrev pub send_find : Index D F M → CompareType → Option (Value D) → Option Scanned
  send_find index t none = none
  send_find index t (some value) = some (Scanned.waiting index.disk_agent value t)

  unfoldable pub on_execute_impl :
      Option (Index D F M) → CompareType → Option (Value D) → Limit → Option Scanned
  on_execute_impl none t value limit = finish (on_resume_impl none t value limit)
  on_execute_impl (some index) t value limit =
      if is_disk D F M index
      then send_find index t value
      else finish (on_resume_impl (some index) t value limit)
