-- ===== src/Auth/Tokens.antt =====
-- Tokens (authenticator.cpp).
use zero_trust_secure_sessio.Common.{
  ℕ, ◌+◌, ◌-◌, ◌/◌, ◌≡◌, refl, sym, ap, ◌∙◌, ◌↔◌, inl, inr, ◌≢◌, true, not, String, Option, none,
  some, arith, string_eq, nat_eq, if◌then◌else◌, ltb, lookup, insert, retain, only, is_some,
  seconds, IsUnique, lookup-insert, lookup-insert_self, lookup-retain, insert, insert-IsUnique,
  Option-cases,
}
use zero_trust_secure_sessio.Types.{Error, token_revoked, ok, err, Result-cases, User}
use zero_trust_secure_sessio.Auth.{
  AuthenticationManager, validate_token, revoke_token, cleanup_expired_tokens,
  is_valid_jwt_structure, token_expiry_time, External, two_dots, parse_payload_text,
  parse_jwt_payload, get_user_from_token, text_take, text_drop,
}

-- A token is accepted exactly if it has the form of one and is not on the list of revoked tokens:
-- neither its signature nor its expiry counts. A token that has just been revoked is refused.
pub validate_token_iff :
    (m : AuthenticationManager) (token other : String) (now : ℕ)
    → ((validate_token m token ≡ ok true)
        ↔ ((is_valid_jwt_structure token ≡ true) × (lookup token m.revoked_tokens ≡ none)))
      × ((validate_token (revoke_token m now token) other ≡ ok true)
          ↔ ((token ≢ other) × (validate_token m other ≡ ok true)))
unfolding validate_token revoke_token
validate_token_iff m token other now = (
  ground arith,
  ground (
    arith,
    lookup-insert token other ((now + token_expiry_time) / seconds 1) m.revoked_tokens,
    string_eq.equal_iff token other,
  ),
)

validate_token_by :
    (m : AuthenticationManager) (token : String) (o : Option ℕ)
    → is_valid_jwt_structure token ≡ true
    → lookup token m.revoked_tokens ≡ o
    → validate_token m token ≡ (if is_some o then err token_revoked else ok true)
unfolding validate_token
validate_token_by m token o s e = rw (s, e, validate_token)

-- For a token of the right form, and a list that has no token twice: a cleanup forgets the
-- revoked token once a later second has begun than the one that it was kept for, an hour after it
-- was revoked, and the token is accepted again from then on; before, it is refused.
pub validate_token-cleanup_expired_tokens :
    (m : AuthenticationManager) (token : String) (revoked now : ℕ)
    → IsUnique m.revoked_tokens
    → is_valid_jwt_structure token ≡ true
    → validate_token (cleanup_expired_tokens (revoke_token m revoked token) now) token ≡ (
        if ltb ((revoked + token_expiry_time) / seconds 1) (now / seconds 1)
        then ok true
        else err token_revoked)
unfolding validate_token revoke_token cleanup_expired_tokens
validate_token-cleanup_expired_tokens m token revoked now u s =
    let expiry = (revoked + token_expiry_time) / seconds 1 in
    let after : lookup token
          (retain (λ n. not (ltb n (now / seconds 1))) (insert token expiry m.revoked_tokens))
        ≡ only (λ n. not (ltb n (now / seconds 1))) (some expiry) =
      lookup-retain (λ n. not (ltb n (now / seconds 1))) token
        (insert token expiry m.revoked_tokens) (insert-IsUnique token expiry m.revoked_tokens u)
      ∙ ap (only (λ n. not (ltb n (now / seconds 1))))
          (lookup-insert_self token expiry m.revoked_tokens) in
    validate_token_by (cleanup_expired_tokens (revoke_token m revoked token) now) token
      (only (λ n. not (ltb n (now / seconds 1))) (some expiry)) s after
    ∙ ground arith

parse_payload_text_fails :
    (x : External) (now : ℕ) (text : String) (user : User) → parse_payload_text x now text ≢ ok user
unfolding parse_payload_text
parse_payload_text_fails x now text user h = elim (Result-cases (x.parse_payload text)) [
  | inl ((expiry, name), e) ↦ absurd (ground (arith, e, h))
  | inr (error, e) ↦ absurd (ground (arith, e, h))
]

parse_jwt_payload_at :
    (x : External) (now : ℕ) (token : String) (first second : ℕ)
    → two_dots token ≡ some (first, second)
    → parse_jwt_payload x now token
      ≡ parse_payload_text x now (text_take (second - first - 1) (text_drop (first + 1) token))
unfolding parse_jwt_payload
parse_jwt_payload_at x now token first second e = rw (e, parse_jwt_payload) refl

parse_jwt_payload_fails :
    (x : External) (now : ℕ) (token : String) (user : User)
    → parse_jwt_payload x now token ≢ ok user
unfolding parse_jwt_payload
parse_jwt_payload_fails x now token user h = elim (Option-cases (two_dots token)) [
  | inl e ↦ absurd (ground (arith, e, h))
  | inr ((first, second), e) ↦
      parse_payload_text_fails x now (text_take (second - first - 1) (text_drop (first + 1) token))
        user (sym (parse_jwt_payload_at x now token first second e) ∙ h)
]

from_token_fails :
    (x : External) (m : AuthenticationManager) (now : ℕ) (token : String) (user : User)
    → get_user_from_token x m now token ≢ ok user
unfolding get_user_from_token
from_token_fails x m now token user h = elim (Option-cases (two_dots token)) [
  | inl e ↦ absurd (ground (arith, e, h))
  | inr ((first, second), e) ↦ elim (Result-cases (parse_jwt_payload x now token)) [
    | inl (found, p) ↦ parse_jwt_payload_fails x now token found p
    | inr (error, p) ↦ absurd (ground (arith, e, p, h))
  ]
]

-- No token leads to a user: whatever its signature, its contents and the table of users, the call
-- returns an error.
pub get_user_from_token_lem :
    (x : External) (m : AuthenticationManager) (now : ℕ) (token : String)
    → (e : Error) × (get_user_from_token x m now token ≡ err e)
get_user_from_token_lem x m now token = elim (Result-cases (get_user_from_token x m now token)) [
  | inr failed ↦ failed
  | inl (user, e) ↦ absurd (from_token_fails x m now token user e)
]
