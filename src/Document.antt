-- ===== src/Document.antt =====
-- components/document/document.cpp, as far as the operators call it: `compare` of two documents and
-- of a document with a value, over the lookup of a node by its JSON pointer. Nodes, elements and the
-- order of elements are parameters here (`Documents`).
pub mod Mirror
use rocket_joe.Base.{ℕ, Bool, true, false, not, ◌&&◌, Option, none, some, if◌then◌else◌}

-- `compare_t`
pub data Compare : Type 0 where
  less equals more : Compare

pub record Documents : Type 1 where
  pub Document : Type 0
  pub Node : Type 0
  pub Element : Type 0
  pub Key : Type 0
  -- `get_document_id`: the bytes of the oid under "/_id", as a number
  pub get_document_id : Document → ℕ
  pub is_valid : Document → Bool
  pub find_node_const : Document → Key → Option Node
  -- `none` where `is_mut()` fails
  pub get_mut : Node → Option Element
  pub compare_element : Element → Element → Compare
  -- `type_by_key(key) == logical_type::STRING_LITERAL`, and the call of `std::regex_match`
  pub is_string : Document → Key → Bool
  pub regex_match : Document → Key → Option Element → Bool

abbrev pub is_some {ℓ} : {A : Type ℓ} → Option A → Bool
is_some none = false
is_some (some a) = true

module _ (D : Documents) where
  open D use {Document, Node, Element, Key, is_valid, find_node_const, get_mut, compare_element}

  -- `value_t`, which is false where it holds no element
  abbrev pub Value : Type 0
  Value = Option Element

  compare_mut : Option Element → Option Element → Compare
  compare_mut (some a) (some b) = compare_element a b
  compare_mut _ _ = Compare.equals

  compare_nodes : Option Node → Option Node → Compare
  compare_nodes (some node) none = Compare.less
  compare_nodes none (some other_node) = Compare.more
  compare_nodes none none = Compare.equals
  compare_nodes (some node) (some other_node) = compare_mut (get_mut node) (get_mut other_node)

  -- `compare(json_pointer, other, other_json_pointer)`
  unfoldable pub compare_document : Document → Key → Document → Key → Compare
  unfolding compare_nodes compare_mut
  compare_document doc key other other_key =
      if is_valid doc && not (is_valid other)
      then Compare.less
      else if not (is_valid doc) && is_valid other
      then Compare.more
      else if not (is_valid doc) && not (is_valid other)
      then Compare.equals
      else compare_nodes (find_node_const doc key) (find_node_const other other_key)

  -- `compare_(node->get_mut(), value.get_element())`; both exist where this is reached
  compare_node_value : Option Node → Value → Compare
  compare_node_value (some node) none = Compare.less
  compare_node_value none (some element) = Compare.more
  compare_node_value none none = Compare.equals
  compare_node_value (some node) (some element) = compare_mut (get_mut node) (some element)

  -- `compare(json_pointer, value)`
  unfoldable pub compare_value : Document → Key → Value → Compare
  unfolding compare_node_value compare_mut
  compare_value doc key value =
      if is_valid doc && not (is_some value)
      then Compare.less
      else if not (is_valid doc) && is_some value
      then Compare.more
      else if not (is_valid doc) && not (is_some value)
      then Compare.equals
      else compare_node_value (find_node_const doc key) value
