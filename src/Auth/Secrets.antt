-- ===== src/Auth/Secrets.antt =====
-- The signatures of authenticator.cpp and the tokens of `generate_token`. What HMAC of OpenSSL and
-- the JSON library return is a parameter.
use Prim.Native.String
use zero_trust_secure_sessio.Common.{
  ℕ, ◌≡◌, refl, ◌↔◌, ◌⊎◌, ◌+◌, ◌/◌, true, not, if◌then◌else◌, List, [], length, Option, none, some,
  is_some, arith, String, ◌==◌, string_eq, nat_eq, Option-cases, seconds, inl, inr,
}
use zero_trust_secure_sessio.Types.{User, Error, Result, ok, err, Result-cases}
use zero_trust_secure_sessio.Auth.{External, token_expiry_time}

-- What the two calls of HMAC return for a key and a text: the digest, or a null pointer.
pub record Hmac : Type 0 where
  pub first : List ℕ → List ℕ → Option (List ℕ)
  pub second : List ℕ → List ℕ → Option (List ℕ)

-- The signature, or that the code reads that many bytes from a null pointer.
pub data Signature : Type 0 where
  text : String → Signature
  reads_null : ℕ → Signature

-- `sig_len`, which starts at 0 and which a call that fails does not set.
abbrev pub sig_len : Option (List ℕ) → ℕ
sig_len none = 0
sig_len (some digest) = length digest

-- The second call gets a null buffer, so HMAC writes to one of its own and `sig_data` stays null.
unfoldable pub generate_jwt_signature : External → Hmac → List ℕ → String → Signature
generate_jwt_signature x hmac secret header_payload =
    let message = x.bytes header_payload in
    let len = sig_len (hmac.second secret message) in
    if not (is_some (hmac.first secret message))
    then text ""
    else if len == 0
    then text (x.base64_encode [])
    else reads_null len

-- The payload by the JSON library for a user and two times in seconds, or the exception's text.
abbrev pub Dump : Type 0
Dump = User → ℕ → ℕ → Result String

unfoldable pub create_jwt_payload : Dump → User → ℕ → ℕ → Result String
create_jwt_payload dump user now later =
    dump user (now / seconds 1) ((later + token_expiry_time) / seconds 1)

-- A token, the text of the exception that `generate_token` reports, or the null pointer that is
-- read.
pub data Issued : Type 0 where
  issued : String → Issued
  generation_failed : Error → Issued
  crashed : ℕ → Issued

abbrev pub add_signature : String → Signature → Issued
add_signature header_payload (text signature) =
    issued (String.◌++◌ (String.◌++◌ header_payload ".") signature)
add_signature header_payload (reads_null n) = crashed n

-- The token with a signature.
abbrev pub token_with : External → (String → String) → String → String → String
token_with x encode payload signature =
    String.◌++◌ (String.◌++◌ (String.◌++◌ (String.◌++◌ x.header ".") (encode payload)) ".")
      signature

-- The clock is read for the issue and again for the expiry. `encode` is base64 of a text.
unfoldable pub generate_token :
    External → Hmac → List ℕ → Dump → (String → String) → User → ℕ → ℕ → Issued
unfolding create_jwt_payload
generate_token x hmac secret dump encode user now later =
    elim (create_jwt_payload dump user now later) [
      | err e ↦ generation_failed e
      | ok payload ↦
          let header_payload = String.◌++◌ (String.◌++◌ x.header ".") (encode payload) in
          add_signature header_payload (generate_jwt_signature x hmac secret header_payload)
    ]

-- A text is returned as the signature exactly if the first HMAC fails and it is empty, or if the
-- first one succeeds, the second leaves no bytes, and it is the base64 of no bytes.
pub generate_jwt_signature_iff :
    (x : External) (hmac : Hmac) (secret : List ℕ) (header_payload signature : String)
    → (generate_jwt_signature x hmac secret header_payload ≡ text signature) ↔ (
        ((hmac.first secret (x.bytes header_payload) ≡ none) × ("" ≡ signature))
        ⊎ ((is_some (hmac.first secret (x.bytes header_payload)) ≡ true)
            × (sig_len (hmac.second secret (x.bytes header_payload)) ≡ 0)
            × (x.base64_encode [] ≡ signature)))
unfolding generate_jwt_signature
generate_jwt_signature_iff x hmac secret header_payload signature =
    grind (arith, Option-cases (hmac.first secret (x.bytes header_payload)))

add_signature-issued :
    (header_payload token : String) (s : Signature)
    → add_signature header_payload s ≡ issued token
    → (signature : String) × (s ≡ text signature)
      × (token ≡ String.◌++◌ (String.◌++◌ header_payload ".") signature)
add_signature-issued header_payload token (text signature) h = (signature, refl, ground (arith, h))
add_signature-issued header_payload token (reads_null n) h = absurd (ground (arith, h))

-- A token that is issued has a payload, after which its signature is empty or the base64 of no
-- bytes, whatever the secret is: anyone can write it.
pub generate_token-issued :
    (x : External) (hmac : Hmac) (secret : List ℕ) (dump : Dump) (encode : String → String)
    (user : User) (now later : ℕ) (token : String)
    → generate_token x hmac secret dump encode user now later ≡ issued token
    → (payload : String) × (create_jwt_payload dump user now later ≡ ok payload)
      × ((token ≡ token_with x encode payload "")
          ⊎ (token ≡ token_with x encode payload (x.base64_encode [])))
unfolding generate_token
generate_token-issued x hmac secret dump encode user now later token h =
    elim (Result-cases (create_jwt_payload dump user now later)) [
      | inr (error, e) ↦ absurd (ground (arith, e, h))
      | inl (payload, e) ↦
          let header_payload = String.◌++◌ (String.◌++◌ x.header ".") (encode payload) in
          let (signature, from, same) =
            add_signature-issued header_payload token
              (generate_jwt_signature x hmac secret header_payload) (ground (arith, e, h)) in
          (
            payload,
            e,
            elim ((generate_jwt_signature_iff x hmac secret header_payload signature).0 from) [
              | inl (failed, q) ↦ inl (rw (same, q))
              | inr (given, len, q) ↦ inr (rw (same, q))
            ],
          )
    ]
