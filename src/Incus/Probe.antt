-- ===== src/Incus/Probe.antt =====
-- internal/incus/client.go: Probe, which reads the version, storage drivers and networks of the runtime.
use natbox.Prelude.{
  String, ◌+ₛ◌, Bool, Option, none, some, List, [], ◌∷◌, ◌=ₛ◌, true, if◌then◌else◌, trim_space,
  to_lower, error_text, failure, Result, ok, err, Exec, pure, fail, ◌>>=◌,
}
use natbox.Prelude.Text.Cut.{cut_at}
use natbox.Incus.Runner.{Runtime, run}

pub record Capabilities : Type 0 where
  pub installed : Bool
  pub version : String
  pub storage_drivers : List String
  pub networks : List String

-- encoding/json on the three replies: the server's and the client's version, and the drivers and names of
-- the rows.
pub record ProbeJson : Type 0 where
  pub versions : String → Result (String × String)
  pub drivers : String → Result (List String)
  pub names : String → Result (List String)

abbrev first_line : Option (String × String) → String → String
first_line none text = text
first_line (some (line, rest)) text = line

-- strings.EqualFold is compared in lower case, which is the same on ASCII texts. LXD's text: "Client version: 5.0" gives its part behind the colon.
abbrev labelled : Option (String × String) → String → String
labelled none text = text
labelled (some (prefix, value)) text =
    if to_lower (trim_space prefix) =ₛ "client version" then trim_space value else text

unfoldable pub plain_version : String → String
plain_version plain =
    let version = trim_space (first_line (cut_at b'\n' plain) plain) in
    labelled (cut_at b':' version) version

not_empty : List String → List String
not_empty [] = []
not_empty (x ∷ xs) = let rest = not_empty xs in if x =ₛ "" then rest else x ∷ rest

module _ (rt : Runtime) (json : ProbeJson) where
  -- A listing whose command or decoding fails is left out.
  listing : (String → Result (List String)) → List String → Exec rt.World (List String)
  unfolding run not_empty
  listing decode args = do
    reply ← run rt args
    pure (elim reply.failed [
      | some text ↦ []
      | none ↦ elim (decode reply.out) [ ok rows ↦ not_empty rows | err e ↦ [] ]
    ])

  -- LXD rejects the JSON flag: then the plain text is read.
  version_fallback : String → String → Exec rt.World String
  unfolding run plain_version
  version_fallback text stderr = do
    plain ← run rt ("version" ∷ [])
    elim plain.failed [
      | some _ ↦ fail (failure ("runtime version: " +ₛ text +ₛ ": " +ₛ trim_space stderr))
      | none ↦
          if plain_version plain.out =ₛ ""
          then fail (failure ("runtime version: empty response: " +ₛ trim_space plain.stderr))
          else pure (plain_version plain.out)
    ]

  decoded_version : Result (String × String) → Exec rt.World String
  decoded_version (ok (server, client)) = pure (if server =ₛ "" then client else server)
  decoded_version (err e) = fail (failure ("invalid runtime version response: " +ₛ error_text e))

  version_of : Exec rt.World String
  unfolding run version_fallback decoded_version
  version_of = do
    reply ← run rt ("version" ∷ "--format=json" ∷ [])
    elim reply.failed [
      | some text ↦ version_fallback text reply.stderr
      | none ↦ decoded_version (json.versions reply.out)
    ]

  unfoldable pub probe : Exec rt.World Capabilities
  unfolding version_of listing
  probe = do
    version ← version_of
    drivers ← listing json.drivers ("storage" ∷ "list" ∷ "--format=json" ∷ [])
    networks ← listing json.names ("network" ∷ "list" ∷ "--format=json" ∷ [])
    pure (record {
      installed = true;
      version = version;
      storage_drivers = drivers;
      networks = networks;
    })
