-- ===== src/Incus/Forwards/RoundTrip.antt =====
-- internal/incus/client.go: the device of AddPortForward and its reading in portForwardsFromDevices.
use text.Mathlib.TextLemmas.{cons-append, nil-append}
use natbox.Prelude.{
  ℕ, ◌≤◌, ◌≡◌, refl, true, String, ◌+ₛ◌, some, ◌∷◌, arith, pos, ◌=ₛ◌, eq_refl, eq_iff, format_int,
  split_on, itoa, Bool-cases, inl, inr,
}
use natbox.Prelude.Text.Decimal.{parse_int-itoa}
use natbox.Prelude.Text.Split.{lacks, split_on-lacks, split_on-append, lacks-itoa}
use natbox.Incus.Forwards.Endpoint.{is_protocol, parse_endpoint, endpoint}
use natbox.Incus.Forwards.Listing.{forward_of}

protocol_lacks_colon : (p : String) → is_protocol p ≡ true → lacks b':' p ≡ true
unfolding lacks
protocol_lacks_colon p h = elim (Bool-cases (p =ₛ "tcp")) [
  | inl tcp ↦ rw ((eq_iff p "tcp").0 tcp) refl
  | inr other ↦ let udp : (p =ₛ "udp") ≡ true = ground arith in rw ((eq_iff p "udp").0 udp) refl
]

split_on_colon :
    (s t : String) → lacks b':' s ≡ true → split_on b':' (s +ₛ (":" +ₛ t)) ≡ s ∷ split_on b':' t
split_on_colon s t h = rw (cons-append ":" "" t, nil-append) (split_on-append b':' ":" s t refl h)

pub parse_endpoint-endpoint :
    (protocol address : String) (port : ℕ)
    → is_protocol protocol ≡ true
    → lacks b':' address ≡ true
    → 1 ≤ port
    → port ≤ 65535
    → parse_endpoint (endpoint protocol address (pos port)) ≡ some (protocol, pos port)
unfolding parse_endpoint format_int
parse_endpoint-endpoint protocol address port known plain low high =
    rw
      (
        split_on_colon protocol _ (protocol_lacks_colon protocol known),
        split_on_colon address _ plain,
        split_on-lacks b':' (itoa port) (lacks-itoa b':' port (omega arith)),
        parse_int-itoa port (omega arith),
        known,
      )
      (ground arith)

-- A proxy device with the two ends that AddPortForward gives it, for a protocol and ports that it
-- accepts and a target address with no colon, is read back as the forward that was asked for.
pub forward_of-endpoint :
    (name protocol address : String) (port target : ℕ)
    → is_protocol protocol ≡ true
    → lacks b':' address ≡ true
    → 1 ≤ port
    → port ≤ 65535
    → 1 ≤ target
    → target ≤ 65535
    → forward_of name (record {
      type = "proxy";
      listen = endpoint protocol "0.0.0.0" (pos port);
      connect = endpoint protocol address (pos target);
    })
      ≡ some (record {
        name = name;
        protocol = protocol;
        listen_port = pos port;
        target_port = pos target;
      })
unfolding forward_of lacks
forward_of-endpoint name protocol address port target known plain low high low' high' = rw (
  parse_endpoint-endpoint protocol "0.0.0.0" port known refl low high,
  parse_endpoint-endpoint protocol address target known plain low' high',
  eq_refl protocol,
)
