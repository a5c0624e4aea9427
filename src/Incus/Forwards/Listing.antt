-- ===== src/Incus/Forwards/Listing.antt =====
-- internal/incus/client.go: the forwards of one instance, read from its devices.
use natbox.Prelude.{
  Bool, true, false, String, ◌+ₛ◌, Option, none, some, List, [], ◌∷◌, ℤ, ltb_ℤ, ◌=ₛ◌, str_lt,
  if◌then◌else◌, trim_space, Exec, pure, fail, ◌>>=◌, ◌>>◌,
}
use natbox.Incus.Runner.{Runtime, Device, command_error, decoded, validate_name, run}
use natbox.Incus.Forwards.Endpoint.{PortForward, parse_endpoint}

-- A forward that a device stands for: a proxy with two ends of one protocol.
abbrev ends : String → Option (String × ℤ) → Option (String × ℤ) → Option PortForward
ends name (some (protocol, port)) (some (target_protocol, target)) =
    if target_protocol =ₛ protocol
    then some
        (record { name = name; protocol = protocol; listen_port = port; target_port = target })
    else none
ends name _ _ = none

unfoldable pub forward_of : String → Device → Option PortForward
forward_of name device =
    if device.type =ₛ "proxy"
    then ends name (parse_endpoint device.listen) (parse_endpoint device.connect)
    else none

-- The order of sort.Slice: by listen port, then by protocol.
unfoldable pub forward_before : PortForward → PortForward → Bool
forward_before a b =
    if ltb_ℤ a.listen_port b.listen_port
    then true
    else if ltb_ℤ b.listen_port a.listen_port
    then false
    else str_lt a.protocol b.protocol

unfoldable pub insert_forward : PortForward → List PortForward → List PortForward
insert_forward f [] = f ∷ []
insert_forward f (g ∷ gs) = if forward_before g f then g ∷ insert_forward f gs else f ∷ g ∷ gs

-- The range over the devices in any order, and the sort of what is found.
unfoldable pub forwards_from_devices : String → List (String × Device) → List PortForward
unfolding forward_of insert_forward forward_before
forwards_from_devices name [] = []
forwards_from_devices name ((_, device) ∷ devices) = elim (forward_of name device) [
  | none ↦ forwards_from_devices name devices
  | some forward ↦ insert_forward forward (forwards_from_devices name devices)
]

module _ (rt : Runtime) where
  -- LXD has no `config device show --format=json`: then the instance is queried.
  devices_fallback : String → String → String → Exec rt.World (List PortForward)
  unfolding run
  devices_fallback name text stderr = do
    query ← run rt ("query" ∷ ("/1.0/instances/" +ₛ name) ∷ [])
    elim query.failed [
      | some _ ↦ fail (
          command_error "list port forwards" text
            (trim_space stderr +ₛ "; " +ₛ trim_space query.stderr))
      | none ↦ (do
        devices ← decoded "invalid runtime device response" (rt.decode_instance_devices query.out)
        pure (forwards_from_devices name devices))
    ]

  unfoldable pub list_port_forwards : String → Exec rt.World (List PortForward)
  unfolding devices_fallback run
  list_port_forwards name = do
    validate_name name
    reply ← run rt ("config" ∷ "device" ∷ "show" ∷ name ∷ "--format=json" ∷ [])
    elim reply.failed [
      | some text ↦ devices_fallback name text reply.stderr
      | none ↦ (do
        devices ← decoded "invalid device response" (rt.decode_devices reply.out)
        pure (forwards_from_devices name devices))
    ]
