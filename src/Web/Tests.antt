-- ===== src/Web/Tests.antt =====
-- The theorems about web_server_impl.cpp at concrete inputs, and a link that leads nowhere.
use zero_trust_secure_sessio.Common.{◌≡◌, refl, true, false, [], ◌∷◌, ◌++◌, List, String, string_eq}
use zero_trust_secure_sessio.Config.{pos}
use zero_trust_secure_sessio.Config.Keys.{stoi}
use zero_trust_secure_sessio.Web.{
  Sockets, create_web_server, is_local_port_available, is_port_available, start, route_request,
  get_config_json, lines_text,
}
use zero_trust_secure_sessio.Web.Serving.{
  Call, start_at, stop_now, Alternates, fresh_tally, perform_all, perform_all-Alternates,
}
use zero_trust_secure_sessio.Web.Main.{
  Serves, serving, run, run-Serves, title, choose_port, serve_port, wait_while_running,
}

-- The link of the page of users.
dead_link : (route_request "/users/edit/admin").status_code ≡ 404
unfolding route_request
dead_link = refl

config_json :
    get_config_json create_web_server
    ≡ "{\n  \"server_port\": 8080,\n  \"log_level\": \"INFO\",\n  \"max_sessions\": 100,\n  \"session_timeout\": 30\n}"
unfolding get_config_json lines_text create_web_server
config_json = refl

abbrev free : Sockets
free = record { has_socket = true; binds = λ address port. true }

abbrev taken : Sockets
taken = record { has_socket = true; binds = λ address port. false }

abbrev calls : List Call
calls =
    start_at taken "localhost" (pos 8080)
    ∷ start_at free "localhost" (pos 80)
    ∷ stop_now
    ∷ start_at free "10.0.0.1" (pos 81)
    ∷ []

perform_all-Alternates_example : Alternates (perform_all calls fresh_tally)
perform_all-Alternates_example = perform_all-Alternates calls

abbrev served : List String
served =
    title
    ++ "\nWeb interface is running!\n" ∷ "Open http://localhost:8443 in your browser\n\n"
      ∷ "Press Ctrl+C to stop the server\n\n" ∷ []

run-Serves_example : Serves free free "web" ("8443" ∷ []) (run free free "web" ("8443" ∷ []))
run-Serves_example = run-Serves free free "web" ("8443" ∷ [])

-- The text "8443" is read as the port 8443, and so is "8443x".
run_on_8443 :
    run free free "web" ("8443x" ∷ [])
    ≡ serving served (record { running = true; address = "localhost"; port = pos 8443 })
unfolding run choose_port stoi serve_port is_local_port_available is_port_available start
    create_web_server wait_while_running
run_on_8443 = refl
