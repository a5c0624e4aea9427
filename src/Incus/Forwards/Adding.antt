-- ===== src/Incus/Forwards/Adding.antt =====
-- internal/incus/client.go: AddPortForward and RemovePortForward.
use natbox.Prelude.{
  Bool, not, ◌||◌, ◌&&◌, String, ◌+ₛ◌, List, [], ◌∷◌, ℤ, leb_ℤ, ◌=ₛ◌, any, if◌then◌else◌,
  format_int, Exec, pure, reject, ◌>>=◌, ◌>>◌,
}
use natbox.Incus.Runner.{Runtime, Instance, validate_name, command}
use natbox.Incus.Query.{ipv4, list}
use natbox.Incus.Forwards.Endpoint.{
  PortForward, is_protocol, is_port, validate_port, endpoint, device_name,
}
use natbox.Incus.Forwards.Listing.{list_port_forwards}

abbrev pub eq_ℤ : ℤ → ℤ → Bool
eq_ℤ a b = leb_ℤ a b && leb_ℤ b a

-- The forward listens on this port of the host.
abbrev pub listens : String → ℤ → PortForward → Bool
listens protocol port f = f.protocol =ₛ protocol && eq_ℤ f.listen_port port

abbrev pub assigned_text : String → ℤ → String
assigned_text protocol port =
    "listen port " +ₛ protocol +ₛ "/" +ₛ format_int port +ₛ " is already assigned"

-- The address of the first instance of this name, "" if there is none.
unfoldable pub target_address : String → List Instance → String
target_address name [] = ""
target_address name (i ∷ is) = if i.name =ₛ name then ipv4 i else target_address name is

module _ (rt : Runtime) where
  -- The loop over the other instances: none of them may listen on the port.
  unfoldable pub check_others : String → String → ℤ → List Instance → Exec rt.World (Unit {0})
  check_others name protocol port [] = pure tt
  check_others name protocol port (i ∷ is) =
      let rest = check_others name protocol port is in
      if i.name =ₛ name then rest else do
        forwards ← list_port_forwards rt i.name
        reject (any (listens protocol port) forwards)
            (assigned_text protocol port +ₛ " to " +ₛ i.name)
        rest

  abbrev pub add_command : String → String → ℤ → String → ℤ → List String
  add_command name protocol port address target =
      "config"
      ∷ "device"
      ∷ "add"
      ∷ name
      ∷ device_name protocol port
      ∷ "proxy"
      ∷ ("listen=" +ₛ endpoint protocol "0.0.0.0" port)
      ∷ ("connect=" +ₛ endpoint protocol address target)
      ∷ []

  unfoldable pub add_port_forward : String → String → ℤ → ℤ → Exec rt.World (Unit {0})
  add_port_forward name protocol port target = do
    validate_name name
    reject (not (is_protocol protocol)) "protocol must be tcp or udp"
    reject (not (is_port port) || not (is_port target)) "invalid port"
    forwards ← list_port_forwards rt name
    reject (any (listens protocol port) forwards) (assigned_text protocol port)
    instances ← list rt
    check_others name protocol port instances
    let address = target_address name instances
    reject (address =ₛ "") "container has no IPv4 address yet; start it and retry"
    command rt "add port forward" (add_command name protocol port address target)

  unfoldable pub remove_port_forward : String → String → ℤ → Exec rt.World (Unit {0})
  remove_port_forward name protocol port = do
    validate_port protocol port
    validate_name name
    command rt "remove port forward"
        ("config" ∷ "device" ∷ "remove" ∷ name ∷ device_name protocol port ∷ [])
