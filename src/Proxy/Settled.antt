-- ===== src/Proxy/Settled.antt =====
-- What the table of proxies (proxy_manager.cpp) keeps while handlers stop: every entry is active, or
-- is about to be removed.
use zero_trust_secure_sessio.Common.{
  ◌≡◌, refl, sym, subst, inl, inr, true, false, ◌||◌, List, [], ◌∷◌, String, some, arith, string_eq,
  ◌==◌, contains, if◌then◌else◌, All, Map, lookup, insert, erase, retain, Bool-cases,
}
use zero_trust_secure_sessio.Proxy.{ProxyConnection}

-- A list without the first occurrence of a name.
abbrev pub drop_one : String → List String → List String
drop_one id [] = []
drop_one id (k ∷ ks) = if k == id then ks else k ∷ drop_one id ks

-- An entry has its own session, and is active or about to be removed.
abbrev pub IsSettled : List String → String × ProxyConnection → Type 0
IsSettled stopping (k, c) = (c.session_id ≡ k) × ((c.active || contains stopping k) ≡ true)

abbrev pub AllSettled : List String → Map String ProxyConnection → Type 0
AllSettled stopping ps = All (IsSettled stopping) ps

pub insert-AllSettled :
    (stopping : List String) (id : String) (c : ProxyConnection) (ps : Map String ProxyConnection)
    → IsSettled stopping (id, c)
    → AllSettled stopping ps
    → AllSettled stopping (insert id c ps)
unfolding insert
insert-AllSettled stopping id c [] a h = (a, tt)
insert-AllSettled stopping id c ((i, d) ∷ ps) a (b, h) = elim (Bool-cases (i == id)) [
  | inl e ↦
      rw e (subst (λ k. IsSettled stopping (k, c)) (sym ((string_eq.equal_iff i id).0 e)) a, h)
  | inr e ↦ rw e (b, insert-AllSettled stopping id c ps a h)
]

pub begun-AllSettled :
    (id : String) (stopping : List String) (ps : Map String ProxyConnection)
    → AllSettled stopping ps
    → AllSettled (id ∷ stopping) ps
begun-AllSettled id stopping [] h = tt
begun-AllSettled id stopping ((i, d) ∷ ps) ((a, b), h) =
    ((a, ground (arith, b)), begun-AllSettled id stopping ps h)

pub erase-AllSettled :
    (stopping : List String) (id : String) (ps : Map String ProxyConnection)
    → AllSettled stopping ps
    → AllSettled stopping (erase id ps)
unfolding erase
erase-AllSettled stopping id [] h = tt
erase-AllSettled stopping id ((i, d) ∷ ps) (b, h) = elim (Bool-cases (i == id)) [
  | inl e ↦ rw e (erase-AllSettled stopping id ps h)
  | inr e ↦ rw e (b, erase-AllSettled stopping id ps h)
]

contains-drop_one :
    (id k : String) (ks : List String)
    → (k == id) ≡ false
    → contains ks k ≡ true
    → contains (drop_one id ks) k ≡ true
contains-drop_one id k [] n h = h
contains-drop_one id k (j ∷ ks) n h = ground (
  arith,
  contains-drop_one id k ks n,
  string_eq.equal_iff j id,
  string_eq.equal_iff j k,
  string_eq.equal_iff k id,
)

pub removed-AllSettled :
    (stopping : List String) (id : String) (ps : Map String ProxyConnection)
    → AllSettled stopping ps
    → AllSettled (drop_one id stopping) (erase id ps)
unfolding erase
removed-AllSettled stopping id [] h = tt
removed-AllSettled stopping id ((i, d) ∷ ps) ((a, b), h) = elim (Bool-cases (i == id)) [
  | inl e ↦ rw e (removed-AllSettled stopping id ps h)
  | inr e ↦ rw e (
    (a, ground (arith, b, contains-drop_one id i stopping e)),
    removed-AllSettled stopping id ps h,
  )
]

pub retain-AllSettled :
    (stopping : List String) (ps : Map String ProxyConnection)
    → AllSettled stopping ps
    → AllSettled stopping (retain (λ c. c.active) ps)
retain-AllSettled stopping [] h = tt
retain-AllSettled stopping ((i, d) ∷ ps) (b, h) = elim (Bool-cases d.active) [
  | inl e ↦ rw e ((b.0, refl), retain-AllSettled stopping ps h)
  | inr e ↦ rw e (retain-AllSettled stopping ps h)
]

pub lookup-AllSettled :
    (stopping : List String) (id : String) (c : ProxyConnection) (ps : Map String ProxyConnection)
    → AllSettled stopping ps
    → lookup id ps ≡ some c
    → IsSettled stopping (id, c)
unfolding lookup
lookup-AllSettled stopping id c [] h e = absurd (ground (arith, e))
lookup-AllSettled stopping id c ((i, d) ∷ ps) (b, h) e = elim (Bool-cases (i == id)) [
  | inl q ↦ ground (arith, q, e, b, string_eq.equal_iff i id)
  | inr q ↦ lookup-AllSettled stopping id c ps h (ground (arith, q, e))
]
