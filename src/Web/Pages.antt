-- ===== src/Web/Pages.antt =====
-- The pages of src/web/web_server_impl.cpp, line by line as they stand in it.
use zero_trust_secure_sessio.Common.{List, [], ◌∷◌, String}

abbrev pub root_page : List String
root_page =
    "" ∷ "<!DOCTYPE html>" ∷ "<html>" ∷ "<head>"
    ∷ "    <title>Zero Trust Secure Session Gateway</title>" ∷ "    <style>" ∷ "        body { "
    ∷ "            font-family: Arial, sans-serif; " ∷ "            margin: 40px; " ∷ "        }"
    ∷ "        .header { " ∷ "            background: #2c3e50; " ∷ "            color: white; "
    ∷ "            padding: 20px; " ∷ "            text-align: center; " ∷ "        }"
    ∷ "        .nav { " ∷ "            background: #34495e; " ∷ "            padding: 10px; "
    ∷ "        }" ∷ "        .nav a { " ∷ "            color: white; "
    ∷ "            text-decoration: none; " ∷ "            margin: 0 15px; " ∷ "        }"
    ∷ "        .content { " ∷ "            margin: 20px 0; " ∷ "        }" ∷ "        .card { "
    ∷ "            border: 1px solid #ddd; " ∷ "            padding: 20px; "
    ∷ "            margin: 10px 0; " ∷ "            border-radius: 5px; " ∷ "        }"
    ∷ "        .status { " ∷ "            background: #d4edda; " ∷ "            padding: 10px; "
    ∷ "            border-radius: 5px; " ∷ "        }" ∷ "    </style>" ∷ "</head>" ∷ "<body>"
    ∷ "    <div class=\"header\">" ∷ "        <h1>Zero Trust Secure Session Gateway</h1>"
    ∷ "        <p>Web Management Interface</p>" ∷ "    </div>" ∷ "    <div class=\"nav\">"
    ∷ "        <a href=\"/\">Home</a>" ∷ "        <a href=\"/status\">Status</a>"
    ∷ "        <a href=\"/config\">Configuration</a>" ∷ "        <a href=\"/users\">Users</a>"
    ∷ "        <a href=\"/sessions\">Sessions</a>" ∷ "        <a href=\"/logs\">Logs</a>"
    ∷ "    </div>" ∷ "    <div class=\"content\">" ∷ "        <div class=\"status\">"
    ∷ "            <h2>System Status</h2>"
    ∷ "            <p>Server Status: <strong>Running</strong></p>"
    ∷ "            <p>Active Sessions: <strong>0</strong></p>"
    ∷ "            <p>Uptime: <strong>0h 0m 0s</strong></p>" ∷ "        </div>"
    ∷ "        <div class=\"card\">" ∷ "            <h3>Quick Actions</h3>" ∷ "            <ul>"
    ∷ "                <li><a href=\"/config\">Manage Configuration</a></li>"
    ∷ "                <li><a href=\"/users\">Manage Users</a></li>"
    ∷ "                <li><a href=\"/sessions\">View Active Sessions</a></li>"
    ∷ "                <li><a href=\"/logs\">View System Logs</a></li>" ∷ "            </ul>"
    ∷ "        </div>" ∷ "    </div>" ∷ "</body>" ∷ "</html>" ∷ "    " ∷ []

abbrev pub config_page : List String
config_page =
    "" ∷ "<!DOCTYPE html>" ∷ "<html>" ∷ "<head>"
    ∷ "    <title>Configuration - Zero Trust Gateway</title>" ∷ "    <style>" ∷ "        body { "
    ∷ "            font-family: Arial, sans-serif; " ∷ "            margin: 40px; " ∷ "        }"
    ∷ "        .form-group { " ∷ "            margin: 15px 0; " ∷ "        }" ∷ "        label { "
    ∷ "            display: block; " ∷ "            margin-bottom: 5px; "
    ∷ "            font-weight: bold; " ∷ "        }" ∷ "        input, textarea, select { "
    ∷ "            width: 100%; " ∷ "            padding: 8px; "
    ∷ "            border: 1px solid #ddd; " ∷ "            border-radius: 4px; " ∷ "        }"
    ∷ "        button { " ∷ "            background: #3498db; " ∷ "            color: white; "
    ∷ "            padding: 10px 20px; " ∷ "            border: none; "
    ∷ "            border-radius: 4px; " ∷ "            cursor: pointer; " ∷ "        }"
    ∷ "        button:hover { " ∷ "            background: #2980b9; " ∷ "        }" ∷ "    </style>"
    ∷ "</head>" ∷ "<body>" ∷ "    <h2>Configuration Management</h2>" ∷ "    <form>"
    ∷ "        <div class=\"form-group\">" ∷ "            <label>Server Port:</label>"
    ∷ "            <input type=\"number\" value=\"8080\" />" ∷ "        </div>"
    ∷ "        <div class=\"form-group\">" ∷ "            <label>Log Level:</label>"
    ∷ "            <select>" ∷ "                <option>DEBUG</option>"
    ∷ "                <option selected>INFO</option>" ∷ "                <option>WARN</option>"
    ∷ "                <option>ERROR</option>" ∷ "            </select>" ∷ "        </div>"
    ∷ "        <div class=\"form-group\">" ∷ "            <label>Max Sessions:</label>"
    ∷ "            <input type=\"number\" value=\"100\" />" ∷ "        </div>"
    ∷ "        <div class=\"form-group\">" ∷ "            <label>Session Timeout (minutes):</label>"
    ∷ "            <input type=\"number\" value=\"30\" />" ∷ "        </div>"
    ∷ "        <button type=\"submit\">Save Configuration</button>" ∷ "    </form>" ∷ "</body>"
    ∷ "</html>" ∷ "    " ∷ []

abbrev pub users_page : List String
users_page =
    "" ∷ "<!DOCTYPE html>" ∷ "<html>" ∷ "<head>" ∷ "    <title>Users - Zero Trust Gateway</title>"
    ∷ "    <style>" ∷ "        body { font-family: Arial, sans-serif; margin: 40px; }"
    ∷ "        table { border-collapse: collapse; width: 100%; }"
    ∷ "        th, td { border: 1px solid #ddd; padding: 8px; text-align: left; }"
    ∷ "        th { background-color: #f2f2f2; }" ∷ "    </style>" ∷ "</head>" ∷ "<body>"
    ∷ "    <h2>User Management</h2>" ∷ "    <table>" ∷ "        <tr>"
    ∷ "            <th>Username</th>" ∷ "            <th>Role</th>" ∷ "            <th>Status</th>"
    ∷ "            <th>Last Login</th>" ∷ "            <th>Actions</th>" ∷ "        </tr>"
    ∷ "        <tr>" ∷ "            <td>admin</td>" ∷ "            <td>Administrator</td>"
    ∷ "            <td>Active</td>" ∷ "            <td>Never</td>"
    ∷ "            <td><a href=\"/users/edit/admin\">Edit</a></td>" ∷ "        </tr>"
    ∷ "    </table>" ∷ "</body>" ∷ "</html>" ∷ "    " ∷ []

abbrev pub sessions_page : List String
sessions_page =
    "" ∷ "<!DOCTYPE html>" ∷ "<html>" ∷ "<head>"
    ∷ "    <title>Sessions - Zero Trust Gateway</title>" ∷ "    <style>"
    ∷ "        body { font-family: Arial, sans-serif; margin: 40px; }"
    ∷ "        .session { border: 1px solid #ddd; padding: 15px; margin: 10px 0; border-radius: 5px; }"
    ∷ "        .active { background-color: #d4edda; }"
    ∷ "        .expired { background-color: #f8d7da; }" ∷ "    </style>" ∷ "</head>" ∷ "<body>"
    ∷ "    <h2>Active Sessions</h2>" ∷ "    <div class=\"session active\">"
    ∷ "        <h3>No active sessions</h3>"
    ∷ "        <p>Currently there are no active sessions.</p>" ∷ "    </div>" ∷ "</body>"
    ∷ "</html>" ∷ "    " ∷ []

abbrev pub logs_page : List String
logs_page =
    "" ∷ "<!DOCTYPE html>" ∷ "<html>" ∷ "<head>" ∷ "    <title>Logs - Zero Trust Gateway</title>"
    ∷ "    <style>" ∷ "        body { font-family: Arial, sans-serif; margin: 40px; }"
    ∷ "        .log-entry { border: 1px solid #ddd; padding: 10px; margin: 5px 0; font-family: monospace; }"
    ∷ "        .info { background-color: #d1ecf1; }"
    ∷ "        .error { background-color: #f8d7da; }"
    ∷ "        .warning { background-color: #fff3cd; }" ∷ "    </style>" ∷ "</head>" ∷ "<body>"
    ∷ "    <h2>System Logs</h2>" ∷ "    <div class=\"log-entry info\">"
    ∷ "        <strong>[2024-01-01 12:00:00] INFO:</strong> Web server started on port 8080"
    ∷ "    </div>" ∷ "    <div class=\"log-entry info\">"
    ∷ "        <strong>[2024-01-01 12:00:01] INFO:</strong> Web interface is ready" ∷ "    </div>"
    ∷ "</body>" ∷ "</html>" ∷ "    " ∷ []

abbrev pub not_found_page : List String
not_found_page =
    "" ∷ "<!DOCTYPE html>" ∷ "<html>" ∷ "<head>" ∷ "    <title>404 - Not Found</title>"
    ∷ "    <style>"
    ∷ "        body { font-family: Arial, sans-serif; margin: 40px; text-align: center; }"
    ∷ "        .error { color: #721c24; font-size: 48px; }" ∷ "    </style>" ∷ "</head>" ∷ "<body>"
    ∷ "    <h1 class=\"error\">404</h1>" ∷ "    <h2>Page Not Found</h2>"
    ∷ "    <p>The requested page could not be found.</p>" ∷ "    <a href=\"/\">Return to Home</a>"
    ∷ "</body>" ∷ "</html>" ∷ "    " ∷ []
