-- ===== src/Incus/Quiet.antt =====
-- internal/incus/client.go: the commands that only ask the runtime.
use natbox.Prelude.{
  ◌+ₛ◌, ◌≡◌, refl, Bool, true, false, String, List, [], ◌∷◌, arith, ◌=ₛ◌, ◌||◌, Stays, ◌&&◌,
}
use natbox.Incus.Runner.{Runtime, run, output, validate_name}
use natbox.Incus.Query.{list, info, stats}
use natbox.Incus.Probe.{ProbeJson, probe}
use natbox.Incus.Forwards.Listing.{list_port_forwards}

-- Command lines that only show something; `query` with a path alone sends a GET.
abbrev alone : List String → Bool
alone (path ∷ []) = true
alone args = false

abbrev lists : List String → Bool
lists (verb ∷ args) = verb =ₛ "list"
lists [] = false

abbrev shows_devices : List String → Bool
shows_devices (part ∷ verb ∷ args) = part =ₛ "device" && verb =ₛ "show"
shows_devices args = false

unfoldable pub asks : List String → Bool
asks [] = false
asks (op ∷ args) =
    op =ₛ "list"
    || op =ₛ "info"
    || op =ₛ "version"
    || (op =ₛ "query" && alone args)
    || ((op =ₛ "storage" || op =ₛ "network") && lists args)
    || (op =ₛ "config" && shows_devices args)

-- The runtime does not change under a command that only asks.
abbrev pub IsQuiet : Runtime → Type 0
IsQuiet rt = (args : List String) (w : rt.World) → asks args ≡ true → (rt.run args w).1 ≡ w

-- What was shown is the whole of the state.
abbrev pub all_of : {S : Type 0} → S → S
all_of s = s

module _ (rt : Runtime) (quiet : IsQuiet rt) where
  pub list-Stays : Stays all_of (list rt)
  unfolding list run output asks
  list-Stays w = ground (arith, quiet ("list" ∷ "--format=json" ∷ []) w refl)

  pub stats-Stays : (name : String) → Stays all_of (stats rt name)
  unfolding stats asks validate_name run output
  stats-Stays name w =
      ground (arith, quiet ("query" ∷ ("/1.0/instances/" +ₛ name +ₛ "/state") ∷ []) w refl)

  pub info-Stays : (name : String) → Stays all_of (info rt name)
  unfolding info asks validate_name run
  info-Stays name w = ground (
    arith,
    quiet ("info" ∷ name ∷ "--format=json" ∷ []) w refl,
    quiet ("query" ∷ ("/1.0/instances/" +ₛ name +ₛ "/state") ∷ []) w refl,
  )

  pub list_port_forwards-Stays : (name : String) → Stays all_of (list_port_forwards rt name)
  unfolding list_port_forwards asks validate_name run
  list_port_forwards-Stays name w = ground (
    arith,
    quiet ("config" ∷ "device" ∷ "show" ∷ name ∷ "--format=json" ∷ []) w refl,
    quiet ("query" ∷ ("/1.0/instances/" +ₛ name) ∷ []) w refl,
  )

  pub probe-Stays : (json : ProbeJson) → Stays all_of (probe rt json)
  unfolding probe asks run
  probe-Stays json w = ground (
    arith,
    quiet ("version" ∷ "--format=json" ∷ []) w refl,
    quiet ("version" ∷ []) w refl,
    quiet ("storage" ∷ "list" ∷ "--format=json" ∷ []) w refl,
    quiet ("network" ∷ "list" ∷ "--format=json" ∷ []) w refl,
  )
