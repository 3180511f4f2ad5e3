-- ===== src/Web/Serving.antt =====
-- The calls of web_server_impl.cpp: the paths that it serves, and the life of the server.
use zero_trust_secure_sessio.Common.{
  ℕ, suc, ◌+◌, ◌≡◌, refl, sym, subst, inl, inr, true, false, List, [], ◌∷◌, String, Option, none,
  some, arith, string_eq, ◌==◌, if◌then◌else◌, contains, Bool-cases,
}
use zero_trust_secure_sessio.Config.{ℤ}
use zero_trust_secure_sessio.Web.{
  Sockets, WebServer, WebResult, success, failure, already_running, not_running, port_in_use,
  create_web_server, is_port_available, start, stop, is_running, route_request,
}

abbrev pub routes : List String
routes = "/" ∷ "" ∷ "/status" ∷ "/config" ∷ "/users" ∷ "/sessions" ∷ "/logs" ∷ []

abbrev Answers : String → Type 0
Answers path = (route_request path).status_code ≡ (if contains routes path then 200 else 404)

-- A path is a given one, or differs from it in both orders.
at_route :
    (route path : String)
    → Answers route
    → ((path == route) ≡ false → (route == path) ≡ false → Answers path)
    → Answers path
at_route route path here elsewhere = elim (Bool-cases (path == route)) [
  | inl e ↦ subst Answers (sym ((string_eq.equal_iff path route).0 e)) here
  | inr e ↦
      elsewhere e
        (ground (arith, e, string_eq.equal_iff path route, string_eq.equal_iff route path))
]

-- A path answers 200 if it is one of the seven routes, and 404 if not: a route with anything behind
-- it, such as a query, is not found.
pub status_code-route_request :
    (path : String) → (route_request path).status_code ≡ (if contains routes path then 200 else 404)
unfolding route_request
status_code-route_request path = at_route "/" path refl (λ a a'. at_route "" path refl (λ b b'.
    at_route "/status" path refl (λ c c'. at_route "/config" path refl (λ d d'.
      at_route "/users" path refl (λ e e'. at_route "/sessions" path refl (λ f f'.
        at_route "/logs" path refl
          (λ g g'. rw (a, a', b, b', c, c', d, d', e, e', f, f', g, g', route_request) refl)))))))

-- A call, with what the sockets answer at its time.
pub data Call : Type 0 where
  start_at : Sockets → String → ℤ → Call
  stop_now : Call

-- The sockets, the address and the port of a call of `start`.
abbrev pub Opened : Type 0
Opened = Sockets × String × ℤ

-- A server with the numbers of the calls of `start` and of `stop` that succeeded, and the last call
-- of `start` that did.
pub record Tally : Type 0 where
  pub server : WebServer
  pub starts : ℕ
  pub stops : ℕ
  pub last_start : Option Opened

abbrev pub fresh_tally : Tally
fresh_tally = record { server = create_web_server; starts = 0; stops = 0; last_start = none }

abbrev count_start : Opened → Tally → WebServer × WebResult → Tally
count_start opened t (w, success) = record {
  server = w;
  starts = suc t.starts;
  stops = t.stops;
  last_start = some opened;
}
count_start opened t (w, failure e) = record t { server = w }

abbrev count_stop : Tally → WebServer × WebResult → Tally
count_stop t (w, success) = record t { server = w; stops = suc t.stops }
count_stop t (w, failure e) = record t { server = w }

pub perform : Call → Tally → Tally
perform (start_at net address port) t =
    count_start (net, address, port) t (start net address port t.server)
perform stop_now t = count_stop t (stop t.server)

pub perform_all : List Call → Tally → Tally
perform_all [] t = t
perform_all (call ∷ calls) t = perform_all calls (perform call t)

-- The address and the port of the server are those of the last call of `start` that succeeded, and
-- the sockets of that call found them free.
abbrev pub WasAvailable : Tally → Type 0
WasAvailable t =
    (net : Sockets) × (t.last_start ≡ some (net, t.server.address, t.server.port))
    × (is_port_available net t.server.address t.server.port ≡ true)

abbrev pub Alternates : Tally → Type 0
Alternates t =
    (t.starts ≡ t.stops + (if is_running t.server then 1 else 0))
    × (is_running t.server ≡ true → WasAvailable t)

module _ (net : Sockets) (address : String) (port : ℤ) (w : WebServer) where
  start_running : w.running ≡ true → start net address port w ≡ (w, failure already_running)
  unfolding start
  start_running r = ground (arith, r)

  start_refused :
      w.running ≡ false
      → is_port_available net address port ≡ false
      → start net address port w ≡ (w, failure (port_in_use port address))
  unfolding start
  start_refused r p = ground (arith, r, p)

  start_done :
      w.running ≡ false
      → is_port_available net address port ≡ true
      → start net address port w
        ≡ (record w { address = address; port = port; running = true }, success)
  unfolding start
  start_done r p = ground (arith, r, p)

stop_idle : (w : WebServer) → w.running ≡ false → stop w ≡ (w, failure not_running)
unfolding stop
stop_idle w r = ground (arith, r)

stop_done : (w : WebServer) → w.running ≡ true → stop w ≡ (record w { running = false }, success)
unfolding stop
stop_done w r = ground (arith, r)

perform-Alternates : (call : Call) (t : Tally) → Alternates t → Alternates (perform call t)
unfolding perform
perform-Alternates (start_at net address port) t (h, k) = elim (Bool-cases t.server.running) [
  | inl r ↦ rw (start_running net address port t.server r) (h, k)
  | inr r ↦ elim (Bool-cases (is_port_available net address port)) [
    | inl p ↦
        rw (start_done net address port t.server r p) (ground (arith, h, r), λ _. (net, refl, p))
    | inr p ↦ rw (start_refused net address port t.server r p) (h, k)
  ]
]
perform-Alternates stop_now t (h, k) = elim (Bool-cases t.server.running) [
  | inl r ↦
      rw (stop_done t.server r) (ground (arith, h, r), λ running. absurd (ground (arith, running)))
  | inr r ↦ rw (stop_idle t.server r) (h, k)
]

perform_all-Alternates_from :
    (calls : List Call) (t : Tally) → Alternates t → Alternates (perform_all calls t)
unfolding perform_all
perform_all-Alternates_from [] t h = h
perform_all-Alternates_from (call ∷ calls) t h =
    perform_all-Alternates_from calls (perform call t) (perform-Alternates call t h)

-- After any calls on a new server, whatever the sockets answer at each: as many calls of `start`
-- have succeeded as calls of `stop`, and one more while the server runs; and a server that runs does
-- so on the address and the port of the last call of `start` that succeeded, which
-- `is_port_available` found free at that call.
pub perform_all-Alternates : (calls : List Call) → Alternates (perform_all calls fresh_tally)
unfolding create_web_server
perform_all-Alternates calls =
    perform_all-Alternates_from calls fresh_tally (omega arith, λ h. absurd (ground (arith, h)))
