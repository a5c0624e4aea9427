-- ===== src/Api/Startup.antt =====
-- main.go: what main reads from the environment and checks before it serves, and databasePath.
-- Package net is a parameter: `host_of` is SplitHostPort's host, none for an error, and
-- `is_loopback` says whether a text is an IP address of the loopback interface.
use Prim.Native.String.{len}
use natbox.Prelude.{
  Bool, true, false, not, ◌&&◌, ◌||◌, String, ◌+ₛ◌, Option, none, some, ℤ, pos, ltb, ltb_ℤ, ◌=ₛ◌,
  if◌then◌else◌, trim_space, parse_int, format_int, failure, error_text, Result, ok, err, Exec,
  pure, reject, ◌>>=◌, ◌>>◌,
}
use natbox.App.Base.{Config}
use natbox.Auth.Sessions.{AdminAuth}
use natbox.Auth.Password.{new_admin_auth}

pub record Net : Type 0 where
  pub host_of : String → Option String
  pub is_loopback : String → Bool

-- os.Getenv: "" for a variable that is not set.
abbrev pub Environment : Type 0
Environment = String → String

abbrev or_fallback : Option ℤ → ℤ → ℤ
or_fallback none fallback = fallback
or_fallback (some value) fallback = value

unfoldable pub env_int : Environment → String → ℤ → ℤ
env_int env key fallback = or_fallback (parse_int (trim_space (env key))) fallback

abbrev pub in_range : ℤ → ℤ → ℤ → ℤ → Bool
in_range minimum maximum lower upper =
    not (ltb_ℤ minimum lower || ltb_ℤ upper maximum || ltb_ℤ maximum minimum)

-- validateRange, whose error main prints behind `prefix`.
unfoldable pub validate_range : String → ℤ → ℤ → ℤ → ℤ → Exec Unit (Unit {0})
validate_range prefix minimum maximum lower upper =
    reject (not (in_range minimum maximum lower upper))
      (prefix +ₛ "range must be between " +ₛ format_int lower +ₛ " and " +ₛ format_int upper)

abbrev loopback_host : Net → Option String → Bool
loopback_host net none = false
loopback_host net (some host) =
    if host =ₛ "" then false else if host =ₛ "localhost" then true else net.is_loopback host

unfoldable pub is_loopback_listen : Net → String → Bool
is_loopback_listen net address = loopback_host net (net.host_of address)

unfoldable pub database_path : Environment → String → String
database_path env os =
    let path = trim_space (env "NATBOX_DB") in
    if not (path =ₛ "")
    then path
    else if os =ₛ "linux"
    then "/var/lib/natbox/natbox.db"
    else "natbox.db"

unfoldable pub config_of : Environment → Config
config_of env = record {
  port_min = env_int env "NATBOX_PORT_MIN" (pos 1);
  port_max = env_int env "NATBOX_PORT_MAX" (pos 65535);
  ssh_port_start = env_int env "NATBOX_SSH_PORT_MIN" (pos 2201);
  ssh_port_end = env_int env "NATBOX_SSH_PORT_MAX" (pos 2299);
  memory_reserve_mb = env_int env "NATBOX_MEMORY_RESERVE_MB" (pos 256);
  disk_reserve_gb = env_int env "NATBOX_DISK_RESERVE_GB" (pos 1);
}

-- What the server is started with.
pub record Started : Type 0 where
  pub config : Config
  pub token : String
  pub listen : String
  pub cert_file : String
  pub key_file : String
  pub auth : AdminAuth

abbrev pub listen_of : Environment → String
listen_of env = if env "NATBOX_LISTEN" =ₛ "" then "127.0.0.1:8787" else env "NATBOX_LISTEN"

abbrev prefixed : {A : Type 0} → String → Result A → Result A
prefixed prefix (ok a) = ok a
prefixed prefix (err e) = err (failure (prefix +ₛ error_text e))

abbrev pub started_of : Environment → AdminAuth → Started
started_of env auth = record {
  config = config_of env;
  token = env "NATBOX_TOKEN";
  listen = listen_of env;
  cert_file = env "NATBOX_TLS_CERT";
  key_file = env "NATBOX_TLS_KEY";
  auth = auth;
}

abbrev pub same : Bool → Bool → Bool
same true b = b
same false b = not b

-- The checks on what was read, in main's order; each error ends the program.
unfoldable pub check_started : Net → Environment → Started → Exec Unit (Unit {0})
check_started net env st = do
  validate_range "invalid NATBOX_PORT_MIN/NATBOX_PORT_MAX: " st.config.port_min st.config.port_max
      (pos 1) (pos 65535)
  validate_range "invalid NATBOX_SSH_PORT_MIN/NATBOX_SSH_PORT_MAX: " st.config.ssh_port_start
      st.config.ssh_port_end st.config.port_min st.config.port_max
  reject (not (is_loopback_listen net st.listen) && ltb (len st.token) 16)
      "NATBOX_TOKEN must be at least 16 characters when NATBOX_LISTEN is not loopback"
  reject (not (same (st.cert_file =ₛ "") (st.key_file =ₛ "")))
      "NATBOX_TLS_CERT and NATBOX_TLS_KEY must be set together"
  reject (env "NATBOX_REQUIRE_TLS" =ₛ "1" && st.cert_file =ₛ "")
      "NATBOX_REQUIRE_TLS=1 requires NATBOX_TLS_CERT and NATBOX_TLS_KEY"

-- main, up to the server's start.
unfoldable pub start : Net → Environment → Exec Unit Started
unfolding new_admin_auth check_started
start net env = do
  auth ← (λ s. (
    prefixed "invalid NATBOX_ADMIN_PASSWORD_HASH: "
        (new_admin_auth (env "NATBOX_ADMIN_PASSWORD_HASH")),
    s,
  ))
  check_started net env (started_of env auth)
  pure (started_of env auth)
