-- ===== src/Api/Metrics.antt =====
-- main.go: metrics and diagnostics.
use natbox.Prelude.{
  Bool, not, ◌||◌, String, ◌+ₛ◌, List, [], ◌∷◌, ℤ, pos, ltb_ℤ, ◌=ₛ◌, if◌then◌else◌, length, keep,
  code, ◌==◌, error_text, Result, ok, err,
}
use natbox.Incus.Runner.{Runtime, Instance}
use natbox.Incus.Probe.{probe}
use natbox.Incus.Query.{list}
use natbox.Store
use natbox.Store.{ManagedContainer, parse_before_id}
use natbox.App.Base.{System, on_runtime, on_store}
use natbox.App.Capacity.{HostSnapshot, host_view}
use natbox.App.Reconcile.{reconcile}
use natbox.Api.Answer.{
  Call, Setup, Moment, diagnostics_data, Diagnostics, Answer, success, failed, incomplete,
  metrics_text, Handler, only,
}

-- The policies that metrics counts.
abbrev has_policy : ManagedContainer → Bool
has_policy item = ltb_ℤ (pos 0) item.quota_bytes || not (item.expires_at =ₛ "")

-- A version in a label of the metrics: backslashes and quotes are escaped, line breaks dropped.
unfoldable pub prometheus_label : String → String
prometheus_label String.[] = ""
prometheus_label (String.◌∷◌ c s) =
    let rest = prometheus_label s in
    if code c == b'\\'
    then "\\\\" +ₛ rest
    else if code c == b'"'
    then "\\\"" +ₛ rest
    else if code c == b'\n'
    then rest
    else String.◌∷◌ c rest

metrics_lines : String → List Instance → List ManagedContainer → HostSnapshot → List (String × ℤ)
unfolding prometheus_label
metrics_lines version instances managed host' =
    ("natbox_up", pos 1)
    ∷ ("natbox_build_info{version=\"" +ₛ prometheus_label version +ₛ "\"}", pos 1)
    ∷ ("natbox_managed_containers", pos (length managed))
    ∷ ("natbox_runtime_containers", pos (length instances))
    ∷ ("natbox_running_containers", pos (length (keep (λ i. i.status =ₛ "Running") instances)))
    ∷ ("natbox_policy_enforced_containers", pos (length (keep has_policy managed)))
    ∷ ("natbox_host_memory_available_bytes", host'.memory_available_bytes)
    ∷ ("natbox_host_disk_available_bytes", host'.disk_available_bytes)
    ∷ []

measured_host : String → List Instance → List ManagedContainer → Result HostSnapshot → Answer
unfolding metrics_lines
measured_host version instances managed (ok snapshot) =
    metrics_text (metrics_lines version instances managed snapshot)
measured_host version instances managed (err e) = failed 503 "host_unavailable" (error_text e)

abbrev diagnosed : Diagnostics → Answer
diagnosed d = elim d.runtime [
  | ok c ↦ success (diagnostics_data d)
  | err e ↦ incomplete "runtime diagnostics failed" (diagnostics_data d)
]

module _ {rt : Runtime} (setup : Setup) (moment : Moment) (call : Call) where
  measured_store : List Instance → Result (List ManagedContainer) × System rt → Answer × System rt
  unfolding measured_host
  measured_store instances (ok managed, s) =
      (measured_host setup.version instances managed moment.host, s)
  measured_store instances (err e, s) = (failed 503 "database_unavailable" (error_text e), s)

  measured_runtime : Result (List Instance) × System rt → Answer × System rt
  unfolding measured_store
  measured_runtime (ok instances, s) = measured_store instances (on_store Store.list_containers s)
  measured_runtime (err e, s) = (failed 503 "runtime_unavailable" (error_text e), s)

  unfoldable pub metrics : Handler rt
  unfolding measured_runtime
  metrics = only "GET" call λ s. measured_runtime (on_runtime (list rt) s)

  unfoldable pub diagnostics : Handler rt
  unfolding host_view
  diagnostics = only "GET" call λ s.
      let (found, s') = on_runtime (probe rt setup.probe_json) s in
      let (report, s'') = reconcile s' in
      (
        diagnosed (record {
          version = setup.version;
          uptime = moment.uptime;
          auto_repair = setup.auto_repair;
          runtime = found;
          host = elim moment.host [
            | ok snapshot ↦ ok (host_view setup.config snapshot)
            | err e ↦ err e
          ];
          reconcile = report;
        }),
        s'',
      )
