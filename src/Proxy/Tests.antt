-- ===== src/Proxy/Tests.antt =====
-- The theorems about proxy_manager.cpp at concrete inputs.
use zero_trust_secure_sessio.Common.{
  ◌≡◌, refl, Bool, false, [], ◌∷◌, String, string_eq, ◌==◌, lookup, insert, erase, done, deadlock,
}
use zero_trust_secure_sessio.Types.{TargetService, viewer, ok}
use zero_trust_secure_sessio.Proxy.{
  ProxyManager, new_proxy_manager, new_proxy, begin_stop, stop, stop_proxy, get_active_proxies,
}
use zero_trust_secure_sessio.Proxy.Forwarding.{started, Wires, no_bytes}
use zero_trust_secure_sessio.Proxy.Listing.{Reach-listed}
use zero_trust_secure_sessio.Proxy.Table.{Reach, start_proxy_lem, Reach-stop_proxy}

abbrev service : TargetService
service = record {
  name = "db";
  host = "10.0.0.9";
  port = 5432;
  allowed_roles = viewer ∷ [];
  tls_enabled = false;
}

abbrev named_service : TargetService
named_service = record service { host = "internal-db-server" }

abbrev reads_address : String → Bool
reads_address host = host == "10.0.0.9"

abbrev one_proxy : ProxyManager
one_proxy = record { proxies = ("s1", started "s1" service) ∷ []; total_bytes_transferred = 0 }

one_proxy-Reach : Reach reads_address one_proxy []
unfolding new_proxy_manager lookup insert
one_proxy-Reach =
    Reach.started_proxy "s1" service (ok tt) Reach.empty
      (start_proxy_lem reads_address new_proxy_manager "s1" service)

abbrev two_proxies : ProxyManager
two_proxies = record {
  proxies = ("s1", started "s1" service) ∷ ("s2", started "s2" service) ∷ [];
  total_bytes_transferred = 0;
}

two_proxies-Reach : Reach reads_address two_proxies []
unfolding lookup insert
two_proxies-Reach =
    Reach.started_proxy "s2" service (ok tt) one_proxy-Reach
      (start_proxy_lem reads_address one_proxy "s2" service)

-- A handler has begun to stop the second proxy.
abbrev one_stopping : ProxyManager
one_stopping = record (begin_stop two_proxies (started "s2" service)).0 {
  proxies = insert "s2" (begin_stop two_proxies (started "s2" service)).1 two_proxies.proxies;
}

one_stopping-Reach : Reach reads_address one_stopping ("s2" ∷ [])
unfolding lookup started new_proxy
one_stopping-Reach = Reach.stop_begun "s2" (started "s2" service) two_proxies-Reach refl refl

Reach-stop_proxy_example : stop_proxy one_stopping "s1" ≡ deadlock
unfolding lookup insert begin_stop
Reach-stop_proxy_example = Reach-stop_proxy "s1" one_stopping-Reach refl

Reach-listed_example : get_active_proxies two_proxies ≡ "s1" ∷ "s2" ∷ []
Reach-listed_example = (Reach-listed "s1" two_proxies-Reach).0

-- The entry of the second is still there, and a call in between removes it.
stopped_between :
    stop_proxy one_stopping "s2"
    ≡ done (record one_stopping { proxies = ("s1", started "s1" service) ∷ [] }, ok tt)
unfolding stop_proxy stop lookup insert erase begin_stop
stopped_between = refl

-- Three bytes come from the client.
abbrev one_read : Wires
one_read = record no_bytes { from_client = 7 ∷ 8 ∷ 9 ∷ [] }
