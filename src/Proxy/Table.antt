-- ===== src/Proxy/Table.antt =====
-- The table of proxies (proxy_manager.cpp).
use zero_trust_secure_sessio.Common.{
  ℕ, ◌≡◌, refl, ap, subst, ◌∙◌, inl, inr, Bool, true, false, List, [], ◌∷◌, String, none, some,
  arith, string_eq, contains, if◌then◌else◌, lookup, insert, erase, has_key, insert-insert,
  Bool-cases, Option-cases, Run, done, deadlock,
}
use zero_trust_secure_sessio.Types.{
  TargetService, proxy_already_exists, proxy_not_found, Result, ok, err,
}
use zero_trust_secure_sessio.Proxy.{
  ProxyConnection, ProxyManager, new_proxy_manager, new_proxy, begin_stop, stop, start,
  connect_to_target, start_proxy, stop_proxy, remove_proxy, update_statistics,
  cleanup_inactive_proxies, handle_target_connect, handle_client_read, handle_target_read,
  handle_target_write, handle_client_write, read_from_client, read_from_target, write_to_client,
  write_to_target, start_data_forwarding,
}
use zero_trust_secure_sessio.Proxy.Forwarding.{started}
use zero_trust_secure_sessio.Proxy.Settled.{
  drop_one, AllSettled, insert-AllSettled, begun-AllSettled, erase-AllSettled, removed-AllSettled,
  retain-AllSettled, lookup-AllSettled,
}

-- A session that has a proxy gets no second one. For any other, the proxy is stored, waiting for
-- the target, if the host is an address; if it is a name, the failure to read it stops the proxy,
-- which locks the table's mutex again, and the call does not return.
pub start_proxy_lem :
    (make_address : String → Bool) (m : ProxyManager) (id : String) (target : TargetService)
    → start_proxy make_address m id target ≡ (
        if has_key id m.proxies
        then done (m, err (proxy_already_exists id))
        else if make_address target.host
        then done (record m { proxies = insert id (started id target) m.proxies }, ok tt)
        else deadlock)
unfolding start_proxy start connect_to_target started new_proxy
start_proxy_lem make_address m id target = elim (Bool-cases (has_key id m.proxies)) [
  | inl known ↦ rw (known, start_proxy)
  | inr free ↦ elim (Bool-cases (make_address target.host)) [
    | inl address ↦
        rw (free, address, start_proxy, start, connect_to_target)
          (ap (λ ps. done (record m { proxies = ps }, ok tt))
            (insert-insert id (started id target) (new_proxy id target) m.proxies))
    | inr name ↦ rw (free, name, start_proxy, start, connect_to_target) refl
  ]
]

-- A handler that runs without an error.
pub data Handled (c : ProxyConnection) : ProxyConnection → Type 0 where
  target_connected : Handled c (handle_target_connect c)
  client_read : (bytes : List ℕ) → Handled c (handle_client_read c bytes)
  target_read : (bytes : List ℕ) → Handled c (handle_target_read c bytes)
  target_write : (n : ℕ) → Handled c (handle_target_write c n)
  client_write : (n : ℕ) → Handled c (handle_client_write c n)

-- The managers that the calls and the handlers lead to, in any order, each with the sessions whose
-- proxies are between the two parts of a `stop` that a handler has called: the flag is unset, and
-- `remove_proxy` is still to come. A proxy that has lost its entry may stop too.
pub data Reach (make_address : String → Bool) : ProxyManager → List String → Type 0 where
  empty : Reach make_address new_proxy_manager []
  started_proxy :
      {m m' : ProxyManager} {stopping : List String} (id : String) (target : TargetService)
      (r : Result (Unit {0}))
      → Reach make_address m stopping
      → start_proxy make_address m id target ≡ done (m', r)
      → Reach make_address m' stopping
  stopped_proxy :
      {m m' : ProxyManager} {stopping : List String} (id : String) (r : Result (Unit {0}))
      → Reach make_address m stopping
      → stop_proxy m id ≡ done (m', r)
      → Reach make_address m' stopping
  cleaned :
      {m : ProxyManager} {stopping : List String}
      → Reach make_address m stopping
      → Reach make_address (cleanup_inactive_proxies m) stopping
  handled :
      {m : ProxyManager} {stopping : List String} (id : String) (c c' : ProxyConnection)
      → Reach make_address m stopping
      → lookup id m.proxies ≡ some c
      → Handled c c'
      → Reach make_address (record m { proxies = insert id c' m.proxies }) stopping
  stop_begun :
      {m : ProxyManager} {stopping : List String} (id : String) (c : ProxyConnection)
      → Reach make_address m stopping
      → lookup id m.proxies ≡ some c
      → c.active ≡ true
      → Reach make_address
          (record (begin_stop m c).0 { proxies = insert id (begin_stop m c).1 m.proxies })
          (c.session_id ∷ stopping)
  unlisted_stop_begun :
      {m : ProxyManager} {stopping : List String} (c : ProxyConnection)
      → Reach make_address m stopping
      → Reach make_address (begin_stop m c).0 (c.session_id ∷ stopping)
  removed :
      {m m' : ProxyManager} {stopping : List String} (id : String)
      → Reach make_address m stopping
      → contains stopping id ≡ true
      → remove_proxy false m id ≡ done m'
      → Reach make_address m' (drop_one id stopping)

Handled-same :
    {c c' : ProxyConnection}
    → Handled c c'
    → (c'.session_id ≡ c.session_id) × (c'.active ≡ c.active)
unfolding handle_target_connect handle_client_read handle_target_read handle_target_write
    handle_client_write read_from_client read_from_target write_to_client write_to_target
    start_data_forwarding
Handled-same {c} target_connected = ground arith
Handled-same {c} (client_read bytes) = ground arith
Handled-same {c} (target_read bytes) = ground arith
Handled-same {c} (target_write n) = ground arith
Handled-same {c} (client_write n) = ground arith

-- What `stop_proxy` does: it reports a session without a proxy, does not return for one whose proxy
-- is active, since `stop` locks the table's mutex again, and removes an entry that is not active.
stop_proxy_lem :
    (m : ProxyManager) (id : String)
    → stop_proxy m id ≡ elim (lookup id m.proxies) [
      | none ↦ done (m, err (proxy_not_found id))
      | some c ↦
          if c.active then deadlock else done (record m { proxies = erase id m.proxies }, ok tt)
    ]
unfolding stop_proxy stop remove_proxy
stop_proxy_lem m id = elim (Option-cases (lookup id m.proxies)) [
  | inl e ↦ rw (e, stop_proxy) refl
  | inr (c, e) ↦ elim (Bool-cases c.active) [
    | inl a ↦ rw (e, stop_proxy) (rw (a, stop) refl)
    | inr a ↦ rw (e, stop_proxy) (rw (a, stop) refl)
  ]
]

state_of : {A : Type 0} → ProxyManager → Run (ProxyManager × A) → ProxyManager
state_of m (done (m', a)) = m'
state_of m deadlock = m

manager_of : ProxyManager → Run ProxyManager → ProxyManager
manager_of m (done m') = m'
manager_of m deadlock = m

started-AllSettled :
    (make_address : String → Bool) (stopping : List String) (m : ProxyManager) (id : String)
    (target : TargetService)
    → AllSettled stopping m.proxies
    → AllSettled stopping (state_of m (start_proxy make_address m id target)).proxies
unfolding state_of started new_proxy
started-AllSettled make_address stopping m id target h =
    rw (start_proxy_lem make_address m id target) (elim (Bool-cases (has_key id m.proxies)) [
      | inl known ↦ rw known h
      | inr free ↦ elim (Bool-cases (make_address target.host)) [
        | inl address ↦
            rw (free, address)
              (insert-AllSettled stopping id (started id target) m.proxies (refl, refl) h)
        | inr name ↦ rw (free, name) h
      ]
    ])

stopped-AllSettled :
    (stopping : List String) (m : ProxyManager) (id : String)
    → AllSettled stopping m.proxies
    → AllSettled stopping (state_of m (stop_proxy m id)).proxies
unfolding state_of
stopped-AllSettled stopping m id h =
    rw (stop_proxy_lem m id) (elim (Option-cases (lookup id m.proxies)) [
      | inl e ↦ rw e h
      | inr (c, e) ↦ elim (Bool-cases c.active) [
        | inl a ↦ rw e (rw a h)
        | inr a ↦ rw e (rw a (erase-AllSettled stopping id m.proxies h))
      ]
    ])

pub Reach-AllSettled :
    {make_address : String → Bool} {m : ProxyManager} {stopping : List String}
    → Reach make_address m stopping
    → AllSettled stopping m.proxies
unfolding state_of manager_of cleanup_inactive_proxies new_proxy_manager begin_stop
    update_statistics remove_proxy
Reach-AllSettled empty = tt
Reach-AllSettled {make_address} (started_proxy {m} {stopping = stopping} id target r t e) =
    subst (λ o. AllSettled stopping (state_of m o).proxies) e
      (started-AllSettled make_address stopping m id target (Reach-AllSettled t))
Reach-AllSettled (stopped_proxy {m} {stopping = stopping} id r t e) =
    subst (λ o. AllSettled stopping (state_of m o).proxies) e
      (stopped-AllSettled stopping m id (Reach-AllSettled t))
Reach-AllSettled (cleaned {m} {stopping} t) =
    retain-AllSettled stopping m.proxies (Reach-AllSettled t)
Reach-AllSettled (handled {m} {stopping} id c c' t e s) =
    let (own, settled) = lookup-AllSettled stopping id c m.proxies (Reach-AllSettled t) e in
    let (same, flag) = Handled-same s in
    insert-AllSettled stopping id c' m.proxies (same ∙ own, rw flag settled) (Reach-AllSettled t)
Reach-AllSettled (stop_begun {m} {stopping} id c t e a) =
    let (own, settled) = lookup-AllSettled stopping id c m.proxies (Reach-AllSettled t) e in
    insert-AllSettled (c.session_id ∷ stopping) id (begin_stop m c).1 m.proxies
      (own, ground (arith, string_eq.equal_iff c.session_id id))
      (begun-AllSettled c.session_id stopping m.proxies (Reach-AllSettled t))
Reach-AllSettled (unlisted_stop_begun {m} {stopping} c t) =
    begun-AllSettled c.session_id stopping m.proxies (Reach-AllSettled t)
Reach-AllSettled (removed {m} {stopping = stopping} id t k e) =
    subst (λ (o : Run ProxyManager). AllSettled (drop_one id stopping) (manager_of m o).proxies) e
      (removed-AllSettled stopping id m.proxies (Reach-AllSettled t))

-- Whatever calls and handlers have run, in any order and also between the two parts of a handler's
-- `stop`: for a session with no such `stop` under way, `stop_proxy` never stops a proxy. It reports
-- a session without one, and for a session with one it does not return, since the proxy that stops
-- locks the table's mutex again.
pub Reach-stop_proxy :
    {make_address : String → Bool} {m : ProxyManager} {stopping : List String} (id : String)
    → Reach make_address m stopping
    → contains stopping id ≡ false
    → stop_proxy m id
      ≡ (if has_key id m.proxies then deadlock else done (m, err (proxy_not_found id)))
Reach-stop_proxy {m = m} {stopping = stopping} id t calm =
    stop_proxy_lem m id ∙ elim (Option-cases (lookup id m.proxies)) [
      | inl e ↦ rw e refl
      | inr (c, e) ↦
          let (own, settled) = lookup-AllSettled stopping id c m.proxies (Reach-AllSettled t) e in
          let a : c.active ≡ true = ground (arith, settled, calm) in rw e (rw a refl)
    ]
