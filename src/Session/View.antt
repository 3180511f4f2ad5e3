-- ===== src/Session/View.antt =====
-- The session manager (session_manager.cpp) seen from outside: its table without an order, as a
-- quotient.
use mathlib.Core.Quot
use mathlib.Core.Quot.{Quot}
use text.Mathlib.TextEquality.{IsScalar-prop}
use zero_trust_secure_sessio.Common.{
  ℕ, ◌≡◌, refl, sym, ap, ◌∙◌, List, [], ◌∷◌, Option, none, some, arith, IsUnique, ◌⊎◌, inl, inr,
  string_eq,
}
use zero_trust_secure_sessio.Session.{SessionManager}
use zero_trust_secure_sessio.Session.Calls.{Same, Call, Reply, perform, Matches}
use zero_trust_secure_sessio.Session.Order.{perform-Same}

-- The replies to calls at given times, up to a call that does not return.
unfoldable pub replies : (ℕ → ℕ) → List (ℕ × Call) → SessionManager → List Reply
replies draw [] m = []
replies draw ((now, call) ∷ calls) m = elim (perform draw now call m) [
  | none ↦ []
  | some (m', reply) ↦ reply ∷ replies draw calls m'
]

Matches-cases :
    (a b : Option (SessionManager × Reply))
    → Matches a b
    → ((a ≡ none) × (b ≡ none))
      ⊎ ((m n : SessionManager) × (r : Reply) × (a ≡ some (m, r)) × (b ≡ some (n, r)) × Same m n)
Matches-cases none none h = inl (refl, refl)
Matches-cases none (some b) h = absurd (ground (arith, h))
Matches-cases (some a) none h = absurd (ground (arith, h))
Matches-cases (some (m, r)) (some (n, s)) (same, e) =
    inr (m, n, r, refl, ap (λ t. some (n, t)) (sym e), same)

replies_step :
    (draw : ℕ → ℕ) (now : ℕ) (call : Call) (calls : List (ℕ × Call)) (m m' : SessionManager)
    (reply : Reply)
    → perform draw now call m ≡ some (m', reply)
    → replies draw ((now, call) ∷ calls) m ≡ reply ∷ replies draw calls m'
unfolding replies
replies_step draw now call calls m m' reply e = ground (arith, e)

replies-Same :
    (draw : ℕ → ℕ) (calls : List (ℕ × Call)) (m n : SessionManager)
    → Same m n
    → replies draw calls m ≡ replies draw calls n
unfolding replies
replies-Same draw [] m n same = refl
replies-Same draw ((now, call) ∷ calls) m n same =
    elim (Matches-cases (perform draw now call m) (perform draw now call n)
      (perform-Same m n same draw now call)) [
        | inl (e, f) ↦ ground (arith, e, f)
        | inr (m', n', r, e, f, same') ↦
            replies_step draw now call calls m m' r e
            ∙ ap (λ rs. r ∷ rs) (replies-Same draw calls m' n' same')
            ∙ sym (replies_step draw now call calls n n' r f)
      ]

-- A manager whose table has no key twice, and what is seen of it.
abbrev pub State : Type 0
State = (m : SessionManager) × IsUnique m.sessions

abbrev pub View : Type 0
View = Quot (λ (a b : State). Same a.0 b.0)

abbrev pub view : State → View
view a = Quot.mk a

List-Reply-IsSet : IsSet (List Reply)
List-Reply-IsSet = hlevel (IsScalar-prop)

-- The replies as a function of the view.
observe : (ℕ → ℕ) → List (ℕ × Call) → View → List Reply
observe draw calls =
    Quot.lift List-Reply-IsSet (λ (a : State). replies draw calls a.0)
      (λ a b same. replies-Same draw calls a.0 b.0 same)

-- Managers with the same view give the same replies to every sequence of calls: the order in which
-- the table keeps the sessions cannot be told from the replies of create_session, get_session,
-- update_session, terminate_session, extend_session, cleanup_expired_sessions and
-- get_active_session_count.
pub replies-view :
    (draw : ℕ → ℕ) (calls : List (ℕ × Call)) (a b : State)
    → view a ≡ view b
    → replies draw calls a.0 ≡ replies draw calls b.0
unfolding observe
replies-view draw calls a b e = ap (observe draw calls) e
