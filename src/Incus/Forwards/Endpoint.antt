-- ===== src/Incus/Forwards/Endpoint.antt =====
-- internal/incus/client.go: the texts of a forward's ends and of its device.
use natbox.Prelude.{
  Bool, ◌||◌, ◌&&◌, String, ◌+ₛ◌, Option, none, some, List, [], ◌∷◌, ℤ, pos, ltb_ℤ, not, ◌=ₛ◌,
  if◌then◌else◌, split_on, parse_int, format_int, Exec, reject, ◌>>◌,
}

pub record PortForward : Type 0 where
  pub name : String
  pub protocol : String
  pub listen_port : ℤ
  pub target_port : ℤ

abbrev pub is_protocol : String → Bool
is_protocol p = p =ₛ "tcp" || p =ₛ "udp"

abbrev pub is_port : ℤ → Bool
is_port p = not (ltb_ℤ p (pos 1)) && not (ltb_ℤ (pos 65535) p)

unfoldable pub validate_port : {S : Type 0} → String → ℤ → Exec S (Unit {0})
validate_port protocol port = do
  reject (not (is_protocol protocol)) "protocol must be tcp or udp"
  reject (not (is_port port)) "invalid port"

abbrev checked_endpoint : String → Option ℤ → Option (String × ℤ)
checked_endpoint protocol none = none
checked_endpoint protocol (some port) =
    if is_port port && is_protocol protocol then some (protocol, port) else none

abbrev three_parts : List String → Option (String × ℤ)
three_parts (protocol ∷ host ∷ port ∷ []) = checked_endpoint protocol (parse_int port)
three_parts _ = none

-- The protocol and the port of `protocol:address:port`; `none` is the result that is not ok.
unfoldable pub parse_endpoint : String → Option (String × ℤ)
parse_endpoint value = three_parts (split_on b':' value)

-- `fmt.Sprintf("%s:%s:%d", …)`
abbrev pub endpoint : String → String → ℤ → String
endpoint protocol address port = protocol +ₛ ":" +ₛ address +ₛ ":" +ₛ format_int port

-- `fmt.Sprintf("proxy-%s-%d", …)`
abbrev pub device_name : String → ℤ → String
device_name protocol port = "proxy-" +ₛ protocol +ₛ "-" +ₛ format_int port
