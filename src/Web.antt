-- ===== src/Web.antt =====
-- src/web/web_server_impl.cpp, and the structures of include/zerossg/web/web_server.ixx. The socket
-- calls of `is_port_available` are the parameter `Sockets`. What `start` and `stop` print is left out.
pub mod Pages
pub mod Serving
pub mod Main
pub mod Tests
use Prim.Native.String.{◌++◌ as ◌<>◌}
use zero_trust_secure_sessio.Common.{
  ℕ, suc, Bool, true, false, not, ◌||◌, List, [], ◌∷◌, String, string_eq, ◌==◌, if◌then◌else◌,
}
use zero_trust_secure_sessio.Config.{ℤ, pos, negsuc}
use zero_trust_secure_sessio.Logger.{to_string}
use Pages.{root_page, config_page, users_page, sessions_page, logs_page, not_found_page}

-- Whether there is a socket, and whether `bind` answers 0 for an address, given as a text for
-- `inet_addr`, and a port.
pub record Sockets : Type 0 where
  pub has_socket : Bool
  pub binds : String → ℤ → Bool

pub record HttpResponse : Type 0 where
  pub status_code : ℕ
  pub content_type : String
  pub body : String

pub record WebServer : Type 0 where
  pub running : Bool
  pub address : String
  pub port : ℤ

pub data WebError : Type 0 where
  already_running not_running : WebError
  port_in_use : ℤ → String → WebError

pub data WebResult : Type 0 where
  success : WebResult
  failure : WebError → WebResult

unfoldable pub create_web_server : WebServer
create_web_server = record { running = false; address = "localhost"; port = pos 8080 }

unfoldable pub is_port_available : Sockets → String → ℤ → Bool
is_port_available net address port =
    if not net.has_socket
    then false
    else if address == "localhost" || address == "127.0.0.1"
    then net.binds "127.0.0.1" port
    else net.binds address port

unfoldable pub is_local_port_available : Sockets → ℤ → Bool
unfolding is_port_available
is_local_port_available net port = is_port_available net "localhost" port

unfoldable pub start : Sockets → String → ℤ → WebServer → WebServer × WebResult
unfolding is_port_available
start net address port w =
    if w.running
    then (w, failure already_running)
    else if not (is_port_available net address port)
    then (w, failure (port_in_use port address))
    else (record w { address = address; port = port; running = true }, success)

unfoldable pub stop : WebServer → WebServer × WebResult
stop w = if not w.running then (w, failure not_running) else (record w { running = false }, success)

abbrev pub is_running : WebServer → Bool
is_running w = w.running

-- Lines with a line break between each two.
unfoldable pub lines_text : List String → String
lines_text [] = ""
lines_text (line ∷ []) = line
lines_text (line ∷ other ∷ rest) = line <> ("\n" <> lines_text (other ∷ rest))

abbrev pub make_html_response : String → HttpResponse
make_html_response html = record { status_code = 200; content_type = "text/html"; body = html }

abbrev pub make_json_response : String → HttpResponse
make_json_response json = record {
  status_code = 200;
  content_type = "application/json";
  body = json;
}

unfoldable pub handle_root : HttpResponse
handle_root = make_html_response (lines_text root_page)

unfoldable pub handle_config : HttpResponse
handle_config = make_html_response (lines_text config_page)

unfoldable pub handle_users : HttpResponse
handle_users = make_html_response (lines_text users_page)

unfoldable pub handle_sessions : HttpResponse
handle_sessions = make_html_response (lines_text sessions_page)

unfoldable pub handle_logs : HttpResponse
handle_logs = make_html_response (lines_text logs_page)

unfoldable pub handle_not_found : HttpResponse
handle_not_found = record {
  status_code = 404;
  content_type = "text/html";
  body = lines_text not_found_page;
}

unfoldable pub get_status_json : String
get_status_json = lines_text (
    "{" ∷ "  \"status\": \"running\"," ∷ "  \"active_sessions\": 0," ∷ "  \"uptime\": \"0h 0m 0s\","
    ∷ "  \"memory_usage\": \"N/A\"," ∷ "  \"version\": \"1.0.0\"" ∷ "}" ∷ [])

abbrev pub integer_text : ℤ → String
integer_text (pos n) = to_string n
integer_text (negsuc n) = "-" <> to_string (suc n)

unfoldable pub get_config_json : WebServer → String
get_config_json w = lines_text (
    "{"
    ∷ ("  \"server_port\": " <> (integer_text w.port <> ","))
    ∷ "  \"log_level\": \"INFO\","
    ∷ "  \"max_sessions\": 100,"
    ∷ "  \"session_timeout\": 30"
    ∷ "}"
    ∷ [])

unfoldable pub handle_status : HttpResponse
unfolding get_status_json
handle_status = make_json_response get_status_json

unfoldable pub route_request : String → HttpResponse
unfolding handle_root handle_status handle_config handle_users handle_sessions handle_logs
    handle_not_found
route_request path =
    if path == "/" || path == ""
    then handle_root
    else if path == "/status"
    then handle_status
    else if path == "/config"
    then handle_config
    else if path == "/users"
    then handle_users
    else if path == "/sessions"
    then handle_sessions
    else if path == "/logs"
    then handle_logs
    else handle_not_found
