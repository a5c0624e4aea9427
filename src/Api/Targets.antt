-- ===== src/Api/Targets.antt =====
-- main.go: the routes of the ServeMux, and the routes inside containers and containerAction.
use natbox.Prelude.{
  ℕ, zero, suc, Bool, true, false, not, ◌&&◌, ◌||◌, String, List, [], ◌∷◌, Option, none, some, ◌=ₛ◌,
  if◌then◌else◌, starts_with, split_on, trim_prefix, lookup,
}
use natbox.Prelude.Text.Cut.{trim_of}
use natbox.Auth.Middleware.{versioned_path}
use natbox.App.Actions.{Action, action_of}

-- The handlers that are registered; `containers` and `container_action` take the path that reaches them.
-- `endless` stands for a chain of versioned prefixes that the fuel does not cover.
pub data Target : Type 0 where
  health metrics diagnostics auth_status auth_login auth_logout auth_me capabilities host ports
        templates managed_containers audit_events backup restore_backup reconcile_api
        repair_reconcile_api index unrouted redirect endless :
      Target
  containers container_action : String → Target

abbrev dots : String → Bool
dots segment = segment =ₛ "." || segment =ₛ ".."

-- Segments behind the first slash: no dots, and empty at the end alone.
clean_segments : List String → Bool
clean_segments [] = true
clean_segments (last ∷ []) = not (dots last)
clean_segments (segment ∷ next ∷ rest) =
    not (segment =ₛ "") && not (dots segment) && clean_segments (next ∷ rest)

clean_parts : List String → Bool
unfolding clean_segments
clean_parts [] = false
clean_parts (first ∷ rest) = first =ₛ "" && clean_segments rest

-- The path is what ServeMux makes of it; any other path is answered with a redirect. (ServeMux spares the
-- method CONNECT, which no pattern here is for.)
unfoldable pub is_clean : String → Bool
unfolding clean_parts
is_clean path = starts_with path "/" && clean_parts (split_on b'/' path)

-- The patterns that take one path each. The mux redirects "/api/v1" to the pattern below it.
unfoldable pub patterns : List (String × Target)
patterns =
    ("/api/health", health)
    ∷ ("/api/metrics", metrics)
    ∷ ("/api/diagnostics", diagnostics)
    ∷ ("/api/auth/status", auth_status)
    ∷ ("/api/auth/login", auth_login)
    ∷ ("/api/auth/logout", auth_logout)
    ∷ ("/api/auth/me", auth_me)
    ∷ ("/api/capabilities", capabilities)
    ∷ ("/api/host", host)
    ∷ ("/api/ports", ports)
    ∷ ("/api/templates", templates)
    ∷ ("/api/managed-containers", managed_containers)
    ∷ ("/api/audit", audit_events)
    ∷ ("/api/backup", backup)
    ∷ ("/api/backup/restore", restore_backup)
    ∷ ("/api/reconcile", reconcile_api)
    ∷ ("/api/reconcile/repair", repair_reconcile_api)
    ∷ ("/api/containers", containers "/api/containers")
    ∷ ("/api/v1", redirect)
    ∷ ("/", index)
    ∷ []

-- A pattern that ends in a slash takes the paths below it; "/" takes all that is left, and serveIndex
-- answers those with 404.
abbrev pub matched : String → Option Target → Target
matched path (some t) = t
matched path none = if starts_with path "/api/containers/" then container_action path else unrouted

unfoldable pub plain_target : String → Target
unfolding patterns lookup
plain_target path = matched path (lookup path patterns)

-- The mux, which versionedAPI calls again with the path that it has rewritten. The path is the decoded one,
-- for a URL whose path has no escaped character.
unfoldable pub target : ℕ → String → Target
unfolding plain_target
target zero path =
    if not (is_clean path)
    then redirect
    else if starts_with path "/api/v1/"
    then endless
    else plain_target path
target (suc left) path =
    let inner = target left (versioned_path path) in
    if not (is_clean path)
    then redirect
    else if starts_with path "/api/v1/"
    then inner
    else plain_target path

-- The branches of containers, with the name that the path carries.
pub data Route : Type 0 where
  list_all create bulk bulk_action missing : Route
  list_ports show_info show_policy set_policy set_key add_port remove_port : String → Route
  run : Action → String → Route

run_route : String → Option Action → Route
run_route name none = missing
run_route name (some action) = run action name

posted_route : String → String → Route
unfolding run_route action_of
posted_route name last =
    if last =ₛ "policy"
    then set_policy name
    else if last =ₛ "ssh-key"
    then set_key name
    else if last =ₛ "ports"
    then add_port name
    else run_route name (action_of last)

unfoldable pub two_parts : String → List String → Route
unfolding posted_route
two_parts method (name ∷ last ∷ []) =
    if method =ₛ "POST"
    then posted_route name last
    else if last =ₛ "ports" && method =ₛ "GET"
    then list_ports name
    else if last =ₛ "info" && method =ₛ "GET"
    then show_info name
    else if last =ₛ "policy" && method =ₛ "GET"
    then show_policy name
    else if last =ₛ "ports" && method =ₛ "DELETE"
    then remove_port name
    else missing
two_parts method parts = missing

unfoldable pub containers_route : String → String → Route
unfolding two_parts trim_prefix
containers_route method full =
    let path = trim_of b'/' (trim_prefix full "/api/containers") in
    if path =ₛ "bulk" && method =ₛ "POST"
    then bulk
    else if path =ₛ "bulk/action" && method =ₛ "POST"
    then bulk_action
    else if path =ₛ "" && method =ₛ "GET"
    then list_all
    else if path =ₛ "" && method =ₛ "POST"
    then create
    else two_parts method (split_on b'/' path)

unfoldable pub ssh_parts : String → List String → Option String
ssh_parts method (name ∷ last ∷ []) = if last =ₛ "ssh" && method =ₛ "POST" then some name else none
ssh_parts method parts = none

-- The name for which containerAction allocates an SSH port; any other request goes on to containers.
unfoldable pub ssh_route : String → String → Option String
unfolding ssh_parts trim_prefix
ssh_route method full =
    ssh_parts method (split_on b'/' (trim_of b'/' (trim_prefix full "/api/containers/")))
