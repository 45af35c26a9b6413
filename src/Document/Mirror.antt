-- ===== src/Document/Mirror.antt =====
-- `compare` of two documents is the mirror of the comparison the other way round.
use rocket_joe.Base.{◌≡◌, refl, Option, none, some, arith}
use rocket_joe.Document.{Compare, Documents, compare_document, compare_mut, compare_nodes}

abbrev pub mirror : Compare → Compare
mirror Compare.less = Compare.more
mirror Compare.equals = Compare.equals
mirror Compare.more = Compare.less

module _ (D : Documents)
    (flip : (a b : D.Element) → D.compare_element a b ≡ mirror (D.compare_element b a)) where
  open D use {Document, Node, Key, is_valid, find_node_const, get_mut}

  compare_mut-mirror : (a b : Option D.Element) → compare_mut D a b ≡ mirror (compare_mut D b a)
  unfolding compare_mut
  compare_mut-mirror (some a) (some b) = flip a b
  compare_mut-mirror (some a) none = refl
  compare_mut-mirror none (some b) = refl
  compare_mut-mirror none none = refl

  compare_nodes-mirror : (m n : Option Node) → compare_nodes D m n ≡ mirror (compare_nodes D n m)
  unfolding compare_nodes
  compare_nodes-mirror (some m) (some n) = compare_mut-mirror (get_mut m) (get_mut n)
  compare_nodes-mirror (some m) none = refl
  compare_nodes-mirror none (some n) = refl
  compare_nodes-mirror none none = refl

  -- Where the order of elements is antisymmetric, so is that of documents, whatever is invalid or
  -- missing: swapping the two sides mirrors the outcome.
  pub compare_document-mirror :
      (d : Document) (k : Key) (e : Document) (j : Key)
      → compare_document D d k e j ≡ mirror (compare_document D e j d k)
  unfolding compare_document
  compare_document-mirror d k e j =
      ground (arith, compare_nodes-mirror (find_node_const d k) (find_node_const e j))
