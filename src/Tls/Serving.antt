-- ===== src/Tls/Serving.antt =====
-- `GatewayServer::initialize` (gateway_server.cpp) over the TLS handler of tls_handler.cpp.
use zero_trust_secure_sessio.Common.{
  ◌≡◌, refl, inl, inr, Bool, true, false, String, arith, Bool-cases,
}
use zero_trust_secure_sessio.Config.{Json, ConfigManager}
use zero_trust_secure_sessio.Config.Keys.{get_string}
use zero_trust_secure_sessio.Config.Files.{Disk}
use zero_trust_secure_sessio.Gateway
use zero_trust_secure_sessio.Gateway.{
  Network, GatewayServer, GatewayResult, done_with, failed_with, configure,
}
use zero_trust_secure_sessio.Tls.{Ssl, TlsResult, success, failure, new_tls_handler, initialize}
use zero_trust_secure_sessio.Tls.Loading.{IsLoadable, initialize_iff}

abbrev pub is_success : TlsResult (Unit {0}) → Bool
is_success (success _) = true
is_success (failure e) = false

is_success_sound : (r : TlsResult (Unit {0})) → is_success r ≡ true → r ≡ success tt
is_success_sound (success tt) h = refl
is_success_sound (failure e) h = absurd (ground (arith, h))

-- A network whose certificates and keys the TLS handler loads.
abbrev pub with_tls : Ssl → (String → Bool) → Disk → Network → Network
with_tls ssl is_readable disk net = record net {
  loads_tls = λ cert key. is_success (initialize ssl is_readable disk new_tls_handler cert key).1;
}

-- Over the TLS handler, the gateway server initializes only with a certificate file and a key file
-- of its configuration, or of the defaults "server.crt" and "server.key", that `initialize` of the
-- handler needs: both open and contain their headers, and the libraries take them and the ciphers.
pub initialize-with_tls :
    (lib : Json) (ssl : Ssl) (is_readable : String → Bool) (disk : Disk) (net : Network)
    (m : ConfigManager lib) (g : GatewayServer)
    → (Gateway.initialize lib (with_tls ssl is_readable disk net) m g).1 ≡ done_with
    → IsLoadable ssl is_readable disk new_tls_handler
        (get_string lib m "server.tls_cert_file" "server.crt")
        (get_string lib m "server.tls_key_file" "server.key")
unfolding Gateway.initialize Gateway.configure
initialize-with_tls lib ssl is_readable disk net m g h =
    let cert = get_string lib m "server.tls_cert_file" "server.crt" in
    let key = get_string lib m "server.tls_key_file" "server.key" in
    let r = (initialize ssl is_readable disk new_tls_handler cert key).1 in
    elim (Bool-cases (is_success r)) [
      | inl s ↦
          (initialize_iff ssl is_readable disk new_tls_handler cert key).0 (is_success_sound r s)
      | inr f ↦ absurd (ground (arith, rw f at h))
    ]
