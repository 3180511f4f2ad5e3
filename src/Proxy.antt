-- ===== src/Proxy.antt =====
-- src/proxy/proxy_manager.cpp and include/zerossg/proxy/proxy_manager.ixx: the manager's table, and
-- the proxied connection with its handlers. A handler runs when the asynchronous operation that it
-- waits for is over. `make_address`, of Boost.Asio, is a parameter: whether it reads the host as an
-- address (it throws otherwise). Left out are the late handlers of a stopped proxy, the destructors,
-- and the TLS, which `setup_ssl_if_needed` does not set up.
pub mod Order
pub mod Forwarding
pub mod Settled
pub mod Table
pub mod Listing
pub mod Tests
use zero_trust_secure_sessio.Common.{
  ℕ, zero, suc, Bool, true, false, List, [], ◌∷◌, ◌++◌, String, Option, none, some, string_eq,
  if◌then◌else◌, length, Map, lookup, insert, erase, retain, count, has_key, add64, Run, done,
  deadlock, lock_then, ◌>>=◌,
}
use zero_trust_secure_sessio.Types.{
  TargetService, Error, proxy_already_exists, proxy_not_found, Result, ok, err,
}

-- The asynchronous operation under way in one direction.
pub data Pending : Type 0 where
  idle reading writing : Pending

pub record ProxyConnection : Type 0 where
  pub session_id : String
  pub target_service : TargetService
  pub active : Bool
  pub bytes_sent : ℕ
  pub bytes_received : ℕ
  pub client_to_target_buffer : List ℕ
  pub target_to_client_buffer : List ℕ
  pub connecting : Bool
  pub upstream : Pending
  pub downstream : Pending

pub record ProxyManager : Type 0 where
  pub proxies : Map String ProxyConnection
  pub total_bytes_transferred : ℕ

pub new_proxy_manager : ProxyManager
new_proxy_manager = record { proxies = []; total_bytes_transferred = 0 }

unfoldable pub new_proxy : String → TargetService → ProxyConnection
new_proxy id target = record {
  session_id = id;
  target_service = target;
  active = false;
  bytes_sent = 0;
  bytes_received = 0;
  client_to_target_buffer = [];
  target_to_client_buffer = [];
  connecting = false;
  upstream = idle;
  downstream = idle;
}

unfoldable pub remove_proxy : Bool → ProxyManager → String → Run ProxyManager
remove_proxy held m id = lock_then held (done (record m { proxies = erase id m.proxies }))

unfoldable pub update_statistics : ProxyManager → ℕ → ProxyManager
update_statistics m n = record m { total_bytes_transferred = add64 m.total_bytes_transferred n }

-- The first part of `stop`, which takes no mutex: the flag and the total.
unfoldable pub begin_stop : ProxyManager → ProxyConnection → ProxyManager × ProxyConnection
unfolding update_statistics
begin_stop m c =
    (update_statistics m (add64 c.bytes_sent c.bytes_received), record c { active = false })

-- `held` says whether the caller holds the mutex of the table. If it does, `stop` is one step;
-- other calls may come between its two parts if it does not.
unfoldable pub stop : Bool → ProxyManager → ProxyConnection → Run (ProxyManager × ProxyConnection)
unfolding remove_proxy begin_stop
stop held m c =
    if c.active
    then (remove_proxy held (begin_stop m c).0 c.session_id
        >>= (λ m'. done (m', (begin_stop m c).1)))
    else done (m, c)

-- One step from a handler only where no other call comes between the two parts of `stop`.
unfoldable pub handle_error :
    Bool → ProxyManager → ProxyConnection → Run (ProxyManager × ProxyConnection)
unfolding stop
handle_error held m c = if c.active then stop held m c else done (m, c)

unfoldable pub connect_to_target :
    (String → Bool) → Bool → ProxyManager → ProxyConnection → Run (ProxyManager × ProxyConnection)
unfolding handle_error
connect_to_target make_address held m c =
    if make_address c.target_service.host
    then done (m, record c { connecting = true })
    else handle_error held m c

unfoldable pub start :
    (String → Bool) → Bool → ProxyManager → ProxyConnection → Run (ProxyManager × ProxyConnection)
unfolding connect_to_target
start make_address held m c = connect_to_target make_address held m (record c { active = true })

-- The table's entry is the object that `start` works on.
unfoldable pub start_proxy :
    (String → Bool) → ProxyManager → String → TargetService → Run (ProxyManager × Result (Unit {0}))
unfolding start new_proxy
start_proxy make_address m id target =
    if has_key id m.proxies
    then done (m, err (proxy_already_exists id))
    else let created = record m { proxies = insert id (new_proxy id target) m.proxies } in
      start make_address true created (new_proxy id target) >>= λ (m', c).
      done (record m' { proxies = insert id c m'.proxies }, ok tt)

unfoldable pub stop_proxy : ProxyManager → String → Run (ProxyManager × Result (Unit {0}))
unfolding stop
stop_proxy m id = elim (lookup id m.proxies) [
  | none ↦ done (m, err (proxy_not_found id))
  | some c ↦ stop true m c >>= λ (m', _). done (record m' { proxies = erase id m'.proxies }, ok tt)
]

unfoldable pub is_proxy_active : ProxyManager → String → Bool
is_proxy_active m id = elim (lookup id m.proxies) [ none ↦ false | some c ↦ c.active ]

unfoldable pub active_among : Map String ProxyConnection → List String
active_among [] = []
active_among ((id, c) ∷ rest) = if c.active then id ∷ active_among rest else active_among rest

unfoldable pub get_active_proxies : ProxyManager → List String
unfolding active_among
get_active_proxies m = active_among m.proxies

unfoldable pub cleanup_inactive_proxies : ProxyManager → ProxyManager
cleanup_inactive_proxies m = record m { proxies = retain (λ c. c.active) m.proxies }

unfoldable pub get_active_proxy_count : ProxyManager → ℕ
get_active_proxy_count m = count (λ c. c.active) m.proxies

-- The handlers without an error, on the connection alone.
unfoldable pub read_from_client : ProxyConnection → ProxyConnection
read_from_client c = if c.active then record c { upstream = reading } else c

unfoldable pub read_from_target : ProxyConnection → ProxyConnection
read_from_target c = if c.active then record c { downstream = reading } else c

unfoldable pub start_data_forwarding : ProxyConnection → ProxyConnection
unfolding read_from_client read_from_target
start_data_forwarding c = if c.active then read_from_target (read_from_client c) else c

unfoldable pub handle_target_connect : ProxyConnection → ProxyConnection
unfolding start_data_forwarding
handle_target_connect c = start_data_forwarding (record c { connecting = false })

unfoldable pub write_to_target : ProxyConnection → ProxyConnection
write_to_target c = if c.active then record c { upstream = writing } else c

unfoldable pub write_to_client : ProxyConnection → ProxyConnection
write_to_client c = if c.active then record c { downstream = writing } else c

unfoldable pub handle_client_read : ProxyConnection → List ℕ → ProxyConnection
unfolding write_to_target
handle_client_read c bytes = write_to_target (record c {
  bytes_received = add64 c.bytes_received (length bytes);
  client_to_target_buffer = c.client_to_target_buffer ++ bytes;
})

unfoldable pub handle_target_read : ProxyConnection → List ℕ → ProxyConnection
unfolding write_to_client
handle_target_read c bytes = write_to_client (record c {
  bytes_received = add64 c.bytes_received (length bytes);
  target_to_client_buffer = c.target_to_client_buffer ++ bytes;
})

-- `consume`, of the stream buffer, drops bytes at the front.
unfoldable pub consume : ℕ → List ℕ → List ℕ
consume n [] = []
consume zero (b ∷ bs) = b ∷ bs
consume (suc n) (b ∷ bs) = consume n bs

unfoldable pub handle_target_write : ProxyConnection → ℕ → ProxyConnection
unfolding consume read_from_client
handle_target_write c n =
    read_from_client (record c { client_to_target_buffer = consume n c.client_to_target_buffer })

unfoldable pub handle_client_write : ProxyConnection → ℕ → ProxyConnection
unfolding consume read_from_target
handle_client_write c n = read_from_target (record c {
  bytes_sent = add64 c.bytes_sent n;
  target_to_client_buffer = consume n c.target_to_client_buffer;
})
