-- ===== src/Config/Sample.antt =====
-- A small JSON library, for the tests: values as trees, and a file whose text is read as one value.
use zero_trust_secure_sessio.Common.{
  ℕ, ◌≤◌, ◌≡◌, refl, inl, inr, Bool, true, List, [], ◌∷◌, String, Option, none, some, arith,
  string_eq, ◌==◌, leb, if◌then◌else◌, Map, lookup, Bool-cases,
}
use zero_trust_secure_sessio.Config.{ℤ, pos, negsuc, Json}
use zero_trust_secure_sessio.Config.Laws.{JsonLaws}

mutual
  pub data Tree : Type 0 where
    text : String → Tree
    number : ℤ → Tree
    boolean : Bool → Tree
    record_of : Members → Tree
    list_of : Items → Tree

  pub data Members : Type 0 where
    no_member : Members
    member : String → Tree → Members → Members

  pub data Items : Type 0 where
    no_item : Items
    item : Tree → Items → Items

abbrev members_of : Map String Tree → Members
members_of [] = no_member
members_of ((key, v) ∷ rest) = member key v (members_of rest)

abbrev items_of : List Tree → Items
items_of [] = no_item
items_of (v ∷ vs) = item v (items_of vs)

abbrev list_items : Items → List Tree
list_items no_item = []
list_items (item v vs) = v ∷ list_items vs

unfoldable pub find_member : Members → String → Option Tree
find_member no_member key = none
find_member (member k v rest) key = if k == key then some v else find_member rest key

abbrev members : Tree → Option Members
members (record_of ms) = some ms
members (text s) = none
members (number i) = none
members (boolean b) = none
members (list_of vs) = none

abbrev as_text : Tree → Option String
as_text (text s) = some s
as_text (number i) = none
as_text (boolean b) = none
as_text (record_of ms) = none
as_text (list_of vs) = none

abbrev as_int : Tree → Option ℤ
as_int (number i) = some i
as_int (text s) = none
as_int (boolean b) = none
as_int (record_of ms) = none
as_int (list_of vs) = none

abbrev port_in : ℤ → Option ℕ
port_in (pos n) = if leb n 65535 then some n else none
port_in (negsuc n) = none

abbrev as_port : Tree → Option ℕ
as_port (number i) = port_in i
as_port (text s) = none
as_port (boolean b) = none
as_port (record_of ms) = none
as_port (list_of vs) = none

abbrev as_bool : Tree → Option Bool
as_bool (boolean b) = some b
as_bool (text s) = none
as_bool (number i) = none
as_bool (record_of ms) = none
as_bool (list_of vs) = none

abbrev as_list : Tree → Option (List Tree)
as_list (list_of vs) = some (list_items vs)
as_list (text s) = none
as_list (number i) = none
as_list (boolean b) = none
as_list (record_of ms) = none

abbrev found_or : {A : Type 0} → (Tree → Option A) → A → Option Tree → Option A
found_or as_type d none = some d
found_or as_type d (some v) = as_type v

abbrev value_of : {A : Type 0} → (Tree → Option A) → String → A → Option Members → Option A
value_of as_type key d none = none
value_of as_type key d (some ms) = found_or as_type d (find_member ms key)

abbrev find_in : String → Option Members → Option Tree
find_in key none = none
find_in key (some ms) = find_member ms key

-- The library whose files hold the value `root`.
abbrev pub sample : Tree → Json
sample root = record {
  Value = Tree;
  find = λ v key. find_in key (members v);
  value_text = λ v key d. value_of as_text key d (members v);
  value_int = λ v key d. value_of as_int key d (members v);
  value_port = λ v key d. value_of as_port key d (members v);
  value_bool = λ v key d. value_of as_bool key d (members v);
  elements = as_list;
  text_of = as_text;
  scalar = λ v. none;
  read = λ old contents. (root, true);
  parse = λ contents. none;
  print = λ v. some "{}";
  of_text = text;
  of_int = number;
  of_bool = boolean;
  object = λ m. record_of (members_of m);
  array = λ vs. list_of (items_of vs);
}

find_member-lookup : (m : Map String Tree) (k : String) → find_member (members_of m) k ≡ lookup k m
unfolding lookup find_member
find_member-lookup [] k = refl
find_member-lookup ((i, v) ∷ m) k = elim (Bool-cases (i == k)) [
  | inl e ↦ rw (e, find_member, lookup) refl
  | inr e ↦ rw (e, find_member, lookup) (find_member-lookup m k)
]

list_items-items_of : (vs : List Tree) → list_items (items_of vs) ≡ vs
list_items-items_of [] = refl
list_items-items_of (v ∷ vs) = rw (list_items-items_of vs) refl

port_in_range : (n : ℕ) → n ≤ 65535 → port_in (pos n) ≡ some n
port_in_range n h = ground (arith, h)

pub sample-JsonLaws : (root : Tree) → JsonLaws (sample root)
sample-JsonLaws root = record {
  find-object = find_member-lookup;
  text_found = λ m k s d h. rw (find_member-lookup m k, h) refl;
  int_found = λ m k i d h. rw (find_member-lookup m k, h) refl;
  port_found = λ m k n d b h. rw (find_member-lookup m k, h) (port_in_range n b);
  bool_found = λ m k b d h. rw (find_member-lookup m k, h) refl;
  text_missing = λ m k d h. rw (find_member-lookup m k, h) refl;
  int_missing = λ m k d h. rw (find_member-lookup m k, h) refl;
  elements-array = λ vs. rw (list_items-items_of vs) refl;
  text_of-of_text = λ s. refl;
}
