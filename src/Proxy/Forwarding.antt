-- ===== src/Proxy/Forwarding.antt =====
-- The forwarding between the client and the target (proxy_manager.cpp).
use zero_trust_secure_sessio.Common.{
  ℕ, ◌+◌, ◌%◌, ◌^◌, ◌≡◌, refl, sym, subst, true, false, List, [], String, ◌++◌, arith, length,
  length-append, add64, done, erase, string_eq,
}
use zero_trust_secure_sessio.Types.{TargetService}
use zero_trust_secure_sessio.Proxy.{
  reading, writing, ProxyConnection, ProxyManager, new_proxy, begin_stop, stop, handle_error,
  remove_proxy, update_statistics, handle_target_connect, start_data_forwarding, handle_client_read,
  handle_target_read, handle_target_write, handle_client_write, read_from_client, read_from_target,
  write_to_client, write_to_target, consume,
}
use zero_trust_secure_sessio.Proxy.Order.{InOrder, read-InOrder, written-InOrder, nothing-InOrder}

-- The bytes that have come from and gone to the two sockets.
pub record Wires : Type 0 where
  pub from_client : List ℕ
  pub to_target : List ℕ
  pub from_target : List ℕ
  pub to_client : List ℕ

abbrev pub no_bytes : Wires
no_bytes = record { from_client = []; to_target = []; from_target = []; to_client = [] }

-- The connection that `start_proxy` stores.
unfoldable pub started : String → TargetService → ProxyConnection
unfolding new_proxy
started id target = record (new_proxy id target) { active = true; connecting = true }

-- The connection once the target is connected, after any operations that end without an error. A
-- write that does so has written the whole buffer.
pub data Forwards (id : String) (target : TargetService) : ProxyConnection → Wires → Type 0 where
  connected : Forwards id target (handle_target_connect (started id target)) no_bytes
  client_read :
      {c : ProxyConnection} {w : Wires} (bytes : List ℕ)
      → Forwards id target c w
      → c.upstream ≡ reading
      → Forwards id target
          (handle_client_read c bytes)
          (record w { from_client = w.from_client ++ bytes })
  target_write :
      {c : ProxyConnection} {w : Wires}
      → Forwards id target c w
      → c.upstream ≡ writing
      → Forwards id target
          (handle_target_write c (length c.client_to_target_buffer))
          (record w { to_target = w.to_target ++ c.client_to_target_buffer })
  target_read :
      {c : ProxyConnection} {w : Wires} (bytes : List ℕ)
      → Forwards id target c w
      → c.downstream ≡ reading
      → Forwards id target
          (handle_target_read c bytes)
          (record w { from_target = w.from_target ++ bytes })
  client_write :
      {c : ProxyConnection} {w : Wires}
      → Forwards id target c w
      → c.downstream ≡ writing
      → Forwards id target
          (handle_client_write c (length c.target_to_client_buffer))
          (record w { to_client = w.to_client ++ c.target_to_client_buffer })

pub record IsForwarding (id : String) (c : ProxyConnection) (w : Wires) : Type 0 where
  pub is_active : c.active ≡ true
  pub same_session : c.session_id ≡ id
  pub up : InOrder w.from_client w.to_target c.client_to_target_buffer c.upstream
  pub down : InOrder w.from_target w.to_client c.target_to_client_buffer c.downstream
  pub received : c.bytes_received ≡ (length w.from_client + length w.from_target) % 2 ^ 64
  pub sent : c.bytes_sent ≡ length w.to_client % 2 ^ 64

connected_lem :
    (id : String) (target : TargetService)
    → handle_target_connect (started id target)
      ≡ record (started id target) { connecting = false; upstream = reading; downstream = reading }
unfolding handle_target_connect start_data_forwarding read_from_client read_from_target started
connected_lem id target = refl

started-IsForwarding :
    (id : String) (target : TargetService)
    → IsForwarding id
        (record (started id target) {
          connecting = false;
          upstream = reading;
          downstream = reading;
        })
        no_bytes
unfolding started new_proxy
started-IsForwarding id target = record {
  is_active = refl;
  same_session = refl;
  up = nothing-InOrder;
  down = nothing-InOrder;
  received = refl;
  sent = refl;
}

client_read_lem :
    (c : ProxyConnection) (bytes : List ℕ)
    → c.active ≡ true
    → handle_client_read c bytes ≡ record c {
      bytes_received = add64 c.bytes_received (length bytes);
      client_to_target_buffer = c.client_to_target_buffer ++ bytes;
      upstream = writing;
    }
unfolding handle_client_read write_to_target
client_read_lem c bytes a = rw (a, handle_client_read)

target_read_lem :
    (c : ProxyConnection) (bytes : List ℕ)
    → c.active ≡ true
    → handle_target_read c bytes ≡ record c {
      bytes_received = add64 c.bytes_received (length bytes);
      target_to_client_buffer = c.target_to_client_buffer ++ bytes;
      downstream = writing;
    }
unfolding handle_target_read write_to_client
target_read_lem c bytes a = rw (a, handle_target_read)

target_write_lem :
    (c : ProxyConnection) (n : ℕ)
    → c.active ≡ true
    → handle_target_write c n ≡ record c {
      client_to_target_buffer = consume n c.client_to_target_buffer;
      upstream = reading;
    }
unfolding handle_target_write read_from_client
target_write_lem c n a = rw (a, handle_target_write)

client_write_lem :
    (c : ProxyConnection) (n : ℕ)
    → c.active ≡ true
    → handle_client_write c n ≡ record c {
      bytes_sent = add64 c.bytes_sent n;
      target_to_client_buffer = consume n c.target_to_client_buffer;
      downstream = reading;
    }
unfolding handle_client_write read_from_target
client_write_lem c n a = rw (a, handle_client_write)

pub Forwards-IsForwarding :
    {id : String} {target : TargetService} {c : ProxyConnection} {w : Wires}
    → Forwards id target c w
    → IsForwarding id c w
Forwards-IsForwarding {id} {target} connected =
    subst (λ k. IsForwarding id k no_bytes) (sym (connected_lem id target))
      (started-IsForwarding id target)
Forwards-IsForwarding {id} (client_read {c} {w} bytes f e) =
    let v = Forwards-IsForwarding f in
    subst (λ k. IsForwarding id k (record w { from_client = w.from_client ++ bytes }))
      (sym (client_read_lem c bytes v.is_active))
      (record {
        is_active = v.is_active;
        same_session = v.same_session;
        down = v.down;
        sent = v.sent;
        up = read-InOrder w.from_client w.to_target c.client_to_target_buffer bytes c.upstream v.up;
        received = omega (arith, v.received, length-append w.from_client bytes);
      })
Forwards-IsForwarding {id} (target_write {c} {w} f e) =
    let v = Forwards-IsForwarding f in
    subst
      (λ k. IsForwarding id k (record w { to_target = w.to_target ++ c.client_to_target_buffer }))
      (sym (target_write_lem c (length c.client_to_target_buffer) v.is_active))
      (record {
        is_active = v.is_active;
        same_session = v.same_session;
        down = v.down;
        received = v.received;
        sent = v.sent;
        up = written-InOrder w.from_client w.to_target c.client_to_target_buffer c.upstream v.up;
      })
Forwards-IsForwarding {id} (target_read {c} {w} bytes f e) =
    let v = Forwards-IsForwarding f in
    subst (λ k. IsForwarding id k (record w { from_target = w.from_target ++ bytes }))
      (sym (target_read_lem c bytes v.is_active))
      (record {
        is_active = v.is_active;
        same_session = v.same_session;
        up = v.up;
        sent = v.sent;
        down =
            read-InOrder w.from_target w.to_client c.target_to_client_buffer bytes c.downstream
              v.down;
        received = omega (arith, v.received, length-append w.from_target bytes);
      })
Forwards-IsForwarding {id} (client_write {c} {w} f e) =
    let v = Forwards-IsForwarding f in
    subst
      (λ k. IsForwarding id k (record w { to_client = w.to_client ++ c.target_to_client_buffer }))
      (sym (client_write_lem c (length c.target_to_client_buffer) v.is_active))
      (record {
        is_active = v.is_active;
        same_session = v.same_session;
        up = v.up;
        received = v.received;
        down =
            written-InOrder w.from_target w.to_client c.target_to_client_buffer c.downstream v.down;
        sent = omega (arith, v.sent, length-append w.to_client c.target_to_client_buffer);
      })

pub handle_error_lem :
    (m : ProxyManager) (c : ProxyConnection)
    → c.active ≡ true
    → handle_error false m c
      ≡ done (
        record {
          proxies = erase c.session_id m.proxies;
          total_bytes_transferred =
              add64 m.total_bytes_transferred (add64 c.bytes_sent c.bytes_received);
        },
        record c { active = false },
      )
unfolding handle_error stop begin_stop remove_proxy update_statistics
handle_error_lem m c a = rw (a, handle_error)

-- When an operation fails after any forwarding without an error, and no other call comes between
-- the two parts of `stop`, the connection stops, its entry
-- is removed, and the total grows by the bytes read from both sides and those written to the
-- client, modulo 2 ^ 64: a byte for the target is counted once, and one for the client when it is
-- read and when it is written.
pub handle_error-Forwards :
    {id : String} {target : TargetService} {c : ProxyConnection} {w : Wires} (m : ProxyManager)
    → Forwards id target c w
    → handle_error false m c
      ≡ done (
        record {
          proxies = erase id m.proxies;
          total_bytes_transferred =
              (m.total_bytes_transferred
                + (length w.from_client + length w.from_target + length w.to_client))
              % 2 ^ 64;
        },
        record c { active = false },
      )
handle_error-Forwards {id} {c = c} {w = w} m f =
    let v = Forwards-IsForwarding f in
    let total : add64 m.total_bytes_transferred (add64 c.bytes_sent c.bytes_received)
        ≡ (m.total_bytes_transferred
            + (length w.from_client + length w.from_target + length w.to_client))
          % 2 ^ 64 =
      omega (arith, v.received, v.sent) in
    rw (handle_error_lem m c v.is_active, v.same_session, total)
