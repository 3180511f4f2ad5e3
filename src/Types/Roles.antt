-- ===== src/Types/Roles.antt =====
-- Roles and their texts.
use text.Mathlib.TextEquality.{eq_iff}
use zero_trust_secure_sessio.Common.{
  ◌≡◌, refl, ◌↔◌, ◌≢◌, ◌⊎◌, String, arith, ◌<◌, ◌≤◌, ℕ, ◌+◌, seconds, false,
}
use zero_trust_secure_sessio.Types.{
  Role, admin, operator, viewer, role_to_string, string_to_role, Session, is_expired,
  time_until_expiry,
}

-- Reading back the text of a role gives the role.
pub string_to_role-role_to_string : (r : Role) → string_to_role (role_to_string r) ≡ r
unfolding string_to_role role_to_string
string_to_role-role_to_string admin = refl
string_to_role-role_to_string operator = refl
string_to_role-role_to_string viewer = refl

-- Only the exact texts give the two privileged roles; anything else is the viewer.
pub string_to_role_privileged :
    (s : String)
    → ((string_to_role s ≡ admin) ↔ (s ≡ role_to_string admin))
      × ((string_to_role s ≡ operator) ↔ (s ≡ role_to_string operator))
      × ((string_to_role s ≡ viewer) ↔ ((s ≢ role_to_string admin) × (s ≢ role_to_string operator)))
unfolding string_to_role role_to_string
string_to_role_privileged s =
    ground
      (arith, eq_iff s "admin", eq_iff s "operator", eq_iff s "viewer", eq_iff "operator" "admin")

-- The remaining time is the whole seconds up to the expiry, and 0 from the expiry on, as for
-- every expired session.
pub time_until_expiry_bounds :
    (now : ℕ) (s : Session)
    → ((now < s.expires_at)
        × (is_expired now s ≡ false)
        × (now + seconds (time_until_expiry now s) ≤ s.expires_at)
        × (s.expires_at < now + seconds (time_until_expiry now s + 1)))
      ⊎ ((s.expires_at ≤ now) × (time_until_expiry now s ≡ 0))
unfolding time_until_expiry
time_until_expiry_bounds now s = ground arith
