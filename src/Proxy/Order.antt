-- ===== src/Proxy/Order.antt =====
-- One direction of a connection of proxy_manager.cpp: what is read, written and buffered.
use zero_trust_secure_sessio.Common.{
  ℕ, ◌≡◌, refl, sym, ap, ◌∙◌, ◌≢◌, List, [], ◌∷◌, ◌++◌, arith, length, string_eq,
}
use zero_trust_secure_sessio.Proxy.{Pending, idle, reading, writing, consume}

-- One direction: what is read is what is written, followed by the buffer, which is empty while the
-- connection reads.
pub record InOrder (read written buffer : List ℕ) (p : Pending) : Type 0 where
  pub split : read ≡ written ++ buffer
  pub waiting : p ≢ idle
  pub drained : p ≡ reading → buffer ≡ []

append_nil : {A : Type 0} (xs : List A) → xs ++ [] ≡ xs
append_nil [] = refl
append_nil (x ∷ xs) = ap (λ ys. x ∷ ys) (append_nil xs)

append_assoc : {A : Type 0} (xs ys zs : List A) → (xs ++ ys) ++ zs ≡ xs ++ (ys ++ zs)
append_assoc [] ys zs = refl
append_assoc (x ∷ xs) ys zs = ap (λ l. x ∷ l) (append_assoc xs ys zs)

consume_all : (xs : List ℕ) → consume (length xs) xs ≡ []
unfolding consume
consume_all [] = refl
consume_all (x ∷ xs) = consume_all xs

pub read-InOrder :
    (read written buffer bytes : List ℕ) (p : Pending)
    → InOrder read written buffer p
    → InOrder (read ++ bytes) written (buffer ++ bytes) writing
read-InOrder read written buffer bytes p o = record {
  split = ap (λ l. l ++ bytes) o.split ∙ append_assoc written buffer bytes;
  waiting = λ e. absurd (ground (arith, e));
  drained = λ e. absurd (ground (arith, e));
}

pub written-InOrder :
    (read written buffer : List ℕ) (p : Pending)
    → InOrder read written buffer p
    → InOrder read (written ++ buffer) (consume (length buffer) buffer) reading
written-InOrder read written buffer p o = record {
  split =
      o.split
      ∙ sym (append_nil (written ++ buffer))
      ∙ ap (λ l. (written ++ buffer) ++ l) (sym (consume_all buffer));
  waiting = λ e. absurd (ground (arith, e));
  drained = λ e. consume_all buffer;
}

pub nothing-InOrder : InOrder [] [] [] reading
nothing-InOrder = record {
  split = refl;
  waiting = λ e. absurd (ground (arith, e));
  drained = λ e. refl;
}
