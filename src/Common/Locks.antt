-- ===== src/Common/Locks.antt =====
-- Calls that lock a `std::mutex`: one that locks it again in the thread that holds it does not
-- return.
use mathlib.Core.Bool.{Bool, true, false}
use mathlib.Core.Path.{◌≡◌, refl}
use mathlib.Core.Logic.{◌⊎◌, inl, inr}

pub data Run {ℓ} (A : Type ℓ) : Type ℓ where
  done : A → Run A
  deadlock : Run A

pub Run-cases {ℓ} : {A : Type ℓ} (r : Run A) → ((a : A) × (r ≡ done a)) ⊎ (r ≡ deadlock)
Run-cases (done a) = inl (a, refl)
Run-cases deadlock = inr refl

infixl 5 ◌>>=◌
abbrev pub ◌>>=◌ {ℓ κ} : {A : Type ℓ} {B : Type κ} → Run A → (A → Run B) → Run B
done a >>= f = f a
deadlock >>= f = deadlock

-- `lock_guard`, by whether the thread holds the mutex already.
abbrev pub lock_then {ℓ} : {A : Type ℓ} → Bool → Run A → Run A
lock_then true r = deadlock
lock_then false r = r
