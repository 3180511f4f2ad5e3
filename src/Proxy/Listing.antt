-- ===== src/Proxy/Listing.antt =====
-- What the table of proxies (proxy_manager.cpp) lists and counts while no handler is stopping.
use zero_trust_secure_sessio.Common.{
  ◌≡◌, refl, ap, inl, inr, Bool, true, [], ◌∷◌, String, arith, string_eq, length, All, Map, keys,
  lookup, retain, count, has_key, Option-cases,
}
use zero_trust_secure_sessio.Proxy.{
  ProxyConnection, ProxyManager, is_proxy_active, get_active_proxies, active_among,
  get_active_proxy_count, cleanup_inactive_proxies,
}
use zero_trust_secure_sessio.Proxy.Settled.{AllSettled, lookup-AllSettled}
use zero_trust_secure_sessio.Proxy.Table.{Reach, Reach-AllSettled}

AllActive : Map String ProxyConnection → Type 0
AllActive ps = All (λ e. e.1.active ≡ true) ps

settled-AllActive : (ps : Map String ProxyConnection) → AllSettled [] ps → AllActive ps
unfolding AllActive
settled-AllActive [] h = tt
settled-AllActive ((i, d) ∷ ps) ((own, settled), h) =
    (ground (arith, settled), settled-AllActive ps h)

retain-AllActive : (ps : Map String ProxyConnection) → AllActive ps → retain (λ c. c.active) ps ≡ ps
unfolding AllActive
retain-AllActive [] h = refl
retain-AllActive ((i, d) ∷ ps) (b, h) = rw (b, retain-AllActive ps h)

active_among-AllActive :
    (ps : Map String ProxyConnection)
    → AllActive ps
    → (active_among ps ≡ keys ps) × (count (λ c. c.active) ps ≡ length (keys ps))
unfolding AllActive active_among
active_among-AllActive [] h = (refl, refl)
active_among-AllActive ((i, d) ∷ ps) (b, h) =
    let (e, n) = active_among-AllActive ps h in (rw (b, e), rw (b, n) (omega arith))

-- Whatever calls and handlers have run, while no handler is between the two parts of a `stop`: the
-- proxies of the table are those that are listed and counted, and there is nothing to clean up.
pub Reach-listed :
    {make_address : String → Bool} {m : ProxyManager} (id : String)
    → Reach make_address m []
    → (get_active_proxies m ≡ keys m.proxies)
      × (get_active_proxy_count m ≡ length (get_active_proxies m))
      × (is_proxy_active m id ≡ has_key id m.proxies)
      × (cleanup_inactive_proxies m ≡ m)
unfolding get_active_proxies get_active_proxy_count is_proxy_active cleanup_inactive_proxies
Reach-listed {m = m} id t =
    let settled = Reach-AllSettled t in
    let h = settled-AllActive m.proxies settled in
    let (listed, counted) = active_among-AllActive m.proxies h in
    (
      listed,
      rw (listed, counted) refl,
      elim (Option-cases (lookup id m.proxies)) [
        | inl e ↦ rw (e, is_proxy_active) refl
        | inr (c, e) ↦
            rw (e, is_proxy_active)
              (ground (arith, (lookup-AllSettled [] id c m.proxies settled e).1))
      ],
      ap (λ ps. record m { proxies = ps }) (retain-AllActive m.proxies h),
    )
