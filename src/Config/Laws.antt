-- ===== src/Config/Laws.antt =====
-- What config_manager.cpp relies on of the JSON library.
use zero_trust_secure_sessio.Common.{
  ℕ, ◌≤◌, ◌≡◌, Bool, List, String, none, some, string_eq, Map, lookup,
}
use zero_trust_secure_sessio.Config.{ℤ, pos, Json}

-- The members of an object that was built are found, with their types, and a member that is missing
-- gives the default. A number of `int_found` stands for a value of `int`: the fields that are saved
-- have 32 bits, and a library answers for other numbers as it likes.
pub record JsonLaws (lib : Json) : Type 0 where
  pub find-object : (m : Map String lib.Value) (k : String) → lib.find (lib.object m) k ≡ lookup k m
  pub text_found :
      (m : Map String lib.Value) (k s d : String)
      → lookup k m ≡ some (lib.of_text s)
      → lib.value_text (lib.object m) k d ≡ some s
  pub int_found :
      (m : Map String lib.Value) (k : String) (i d : ℤ)
      → lookup k m ≡ some (lib.of_int i)
      → lib.value_int (lib.object m) k d ≡ some i
  pub port_found :
      (m : Map String lib.Value) (k : String) (n d : ℕ)
      → n ≤ 65535
      → lookup k m ≡ some (lib.of_int (pos n))
      → lib.value_port (lib.object m) k d ≡ some n
  pub bool_found :
      (m : Map String lib.Value) (k : String) (b d : Bool)
      → lookup k m ≡ some (lib.of_bool b)
      → lib.value_bool (lib.object m) k d ≡ some b
  pub text_missing :
      (m : Map String lib.Value) (k d : String)
      → lookup k m ≡ none
      → lib.value_text (lib.object m) k d ≡ some d
  pub int_missing :
      (m : Map String lib.Value) (k : String) (d : ℤ)
      → lookup k m ≡ none
      → lib.value_int (lib.object m) k d ≡ some d
  pub elements-array : (vs : List lib.Value) → lib.elements (lib.array vs) ≡ some vs
  pub text_of-of_text : (s : String) → lib.text_of (lib.of_text s) ≡ some s
