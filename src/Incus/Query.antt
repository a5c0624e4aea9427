-- ===== src/Incus/Query.antt =====
-- internal/incus/client.go: what the client reads from the runtime.
use natbox.Prelude.{
  ℕ, zero, suc, Bool, not, ◌&&◌, String, ◌+ₛ◌, Option, none, some, List, [], ◌∷◌, ℤ, pos, ◌+ℤ◌,
  wrap64, ◌=ₛ◌, if◌then◌else◌, trim_space, failure, Exec, pure, fail, ◌>>=◌, ◌>>◌,
}
use natbox.Incus.Runner.{
  Runtime, Instance, NetworkAddress, InstanceInfo, NetworkCounters, command_error, decoded,
  validate_name, run, output,
}

abbrev usable : NetworkAddress → Bool
usable a = a.family =ₛ "inet" && not (a.scope =ₛ "link") && not (a.address =ₛ "127.0.0.1")

first_usable : List NetworkAddress → Option String
first_usable [] = none
first_usable (a ∷ rest) = if usable a then some a.address else first_usable rest

first_address : List (String × List NetworkAddress) → String
unfolding first_usable
first_address [] = ""
first_address ((_, addresses) ∷ networks) = elim (first_usable addresses) [
  | some address ↦ address
  | none ↦ first_address networks
]

-- Instance.IPv4: "" where there is none.
unfoldable pub ipv4 : Instance → String
unfolding first_address
ipv4 instance_ = first_address instance_.network

pub record NetworkStats : Type 0 where
  pub rx_bytes : ℤ
  pub tx_bytes : ℤ
  pub rx_packets : ℤ
  pub tx_packets : ℤ

abbrev pub no_stats : NetworkStats
no_stats = record { rx_bytes = pos 0; tx_bytes = pos 0; rx_packets = pos 0; tx_packets = pos 0 }

-- The loop of Stats: every interface but the loopback is added up, in int64.
unfoldable pub add_counters : NetworkStats → List (String × NetworkCounters) → NetworkStats
add_counters stats [] = stats
add_counters stats ((name, c) ∷ networks) =
    add_counters
      (if name =ₛ "lo" then stats else record {
        rx_bytes = wrap64 (stats.rx_bytes +ℤ c.bytes_received);
        tx_bytes = wrap64 (stats.tx_bytes +ℤ c.bytes_sent);
        rx_packets = wrap64 (stats.rx_packets +ℤ c.packets_received);
        tx_packets = wrap64 (stats.tx_packets +ℤ c.packets_sent);
      })
      networks

-- The address of the first instance of this name that has one.
unfoldable pub address_of : String → List Instance → String
address_of name [] = ""
address_of name (i ∷ is) =
    if i.name =ₛ name && not (ipv4 i =ₛ "") then ipv4 i else address_of name is

module _ (rt : Runtime) where
  unfoldable pub list : Exec rt.World (List Instance)
  unfolding run output
  list = do
    reply ← run rt ("list" ∷ "--format=json" ∷ [])
    out ← output rt "list" reply
    decoded "invalid incus list response" (rt.decode_instances out)

  state_path : String → String
  state_path name = "/1.0/instances/" +ₛ name +ₛ "/state"

  -- LXD has no `info --format=json`: then the state is queried.
  info_fallback : String → String → String → Exec rt.World InstanceInfo
  unfolding state_path run
  info_fallback name text stderr = do
    query ← run rt ("query" ∷ state_path name ∷ [])
    elim query.failed [
      | some _ ↦
          fail (command_error "info" text (trim_space stderr +ₛ "; " +ₛ trim_space query.stderr))
      | none ↦ decoded "invalid runtime state response" (rt.decode_info query.out)
    ]

  unfoldable pub info : String → Exec rt.World InstanceInfo
  unfolding info_fallback run
  info name = do
    validate_name name
    reply ← run rt ("info" ∷ name ∷ "--format=json" ∷ [])
    elim reply.failed [
      | some text ↦ info_fallback name text reply.stderr
      | none ↦ decoded "invalid runtime info response" (rt.decode_info reply.out)
    ]

  unfoldable pub stats : String → Exec rt.World NetworkStats
  unfolding state_path run output add_counters
  stats name = do
    validate_name name
    reply ← run rt ("query" ∷ state_path name ∷ [])
    out ← output rt "network stats" reply
    networks ← decoded "invalid network state response" (rt.decode_counters out)
    pure (add_counters no_stats networks)

  -- WaitIPv4 polls the list; `ticks` is the number of ticks before the context's deadline, so the loop
  -- ends, and `cause` is the text of ctx.Err().
  unfoldable pub wait_loop : String → String → ℕ → Exec rt.World String
  wait_loop cause name zero = do
    instances ← list
    if address_of name instances =ₛ ""
        then fail (failure ("waiting for " +ₛ name +ₛ " IPv4: " +ₛ cause))
        else pure (address_of name instances)
  wait_loop cause name (suc ticks) = do
    instances ← list
    let rest = wait_loop cause name ticks
    if address_of name instances =ₛ "" then rest else pure (address_of name instances)

  unfoldable pub wait_ipv4 : String → ℕ → String → Exec rt.World String
  unfolding wait_loop
  wait_ipv4 cause ticks name = do validate_name name; wait_loop cause name ticks
