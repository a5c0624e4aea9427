-- ===== src/Api/Quiet.antt =====
-- main.go, policy.go and reconcile.go: the handlers that only read.
use natbox.Prelude.{
  ◌≡◌, refl, ap, ◌∙◌, String, List, [], ◌∷◌, ℤ, arith, ◌=ₛ◌, Exec, attempt, Result-cases, inl, inr,
  Bool-cases, Option-cases, Stays, then-Stays,
}
use natbox.Incus.Runner.{Runtime, Instance}
use natbox.Incus.Query.{list, stats}
use natbox.Incus.Probe.{probe}
use natbox.Incus.Forwards.Listing.{list_port_forwards}
use natbox.Incus.Quiet.{
  IsQuiet, all_of, list-Stays, info-Stays, stats-Stays, list_port_forwards-Stays, probe-Stays,
}
use natbox.Store
use natbox.Store.{Db, ManagedContainer, AuditEvent, parse_before_id}
use natbox.Store.Rows.{find_row}
use natbox.App.Base.{System, on_runtime, on_store}
use natbox.App.Policy.{policy}
use natbox.App.Reconcile.{PortForwardIssue, reconcile, scan_ports}
use natbox.Api.Answer.{Call, Setup, Moment, Handler, only}
use natbox.Api.Reading
use natbox.Api.Metrics

abbrev pub tables : Db → List ManagedContainer × List AuditEvent
tables db = (db.containers, db.audit_events)

-- The runtime's state and the tables; the schedule of driver faults moves on with each statement.
abbrev pub seen : {rt : Runtime} → System rt → rt.World × (List ManagedContainer × List AuditEvent)
seen s = (s.world, tables s.db)

list_containers-Stays : Stays tables Store.list_containers
unfolding Store.list_containers
list_containers-Stays db = ground arith

list_audit-Stays : (limit before : ℤ) → Stays tables (Store.list_audit limit before)
unfolding Store.list_audit
list_audit-Stays limit before db = ground arith

export-Stays : (now : String) → Stays tables (Store.export now)
unfolding Store.export Store.list_containers
export-Stays now db = ground arith

module _ (rt : Runtime) (quiet : IsQuiet rt) where
  pub on_runtime-Stays :
      {A : Type 0} (m : Exec rt.World A) → Stays all_of m → Stays (seen {rt = rt}) (on_runtime m)
  on_runtime-Stays m h s = ap (λ w. (w, tables s.db)) (h s.world)

  on_store-Stays :
      {A : Type 0} (m : Exec Db A) → Stays tables m → Stays (seen {rt = rt}) (on_store m)
  on_store-Stays m h s = ap (λ t. (s.world, t)) (h s.db)

  view_of_instance-Stays : (i : Instance) → Stays all_of (Reading.view_of_instance rt i)
  unfolding Reading.view_of_instance attempt
  view_of_instance-Stays i w = ground (
    arith,
    list_port_forwards-Stays rt quiet i.name w,
    info-Stays rt quiet i.name w,
    stats-Stays rt quiet i.name w,
  )

  views_of_instances-Stays : (is : List Instance) → Stays all_of (Reading.views_of_instances rt is)
  unfolding Reading.views_of_instances
  views_of_instances-Stays [] w = refl
  views_of_instances-Stays (i ∷ is) w =
      ground (arith, view_of_instance-Stays i w, views_of_instances-Stays is w)

  pub list_views-Stays : Stays all_of (Reading.list_views rt)
  unfolding Reading.list_views
  list_views-Stays =
      then-Stays all_of (list rt) (Reading.views_of_instances rt) (list-Stays rt quiet)
        views_of_instances-Stays

  scan_ports-Stays :
      (is : List Instance) (acc : List PortForwardIssue × List (String × String))
      → Stays seen (scan_ports {rt = rt} is acc)
  unfolding scan_ports attempt
  scan_ports-Stays [] acc s = refl
  scan_ports-Stays (i ∷ is) acc s =
      scan_ports-Stays is _ _
      ∙ on_runtime-Stays (list_port_forwards rt i.name) (list_port_forwards-Stays rt quiet i.name) s

  reconcile-Stays : Stays seen (reconcile {rt = rt})
  unfolding reconcile
  reconcile-Stays =
      then-Stays seen (on_store Store.list_containers) _
        (on_store-Stays Store.list_containers list_containers-Stays)
        λ managed.
          then-Stays seen (on_runtime (list rt)) _
            (on_runtime-Stays (list rt) (list-Stays rt quiet))
            λ instances.
              then-Stays seen (scan_ports instances ([], [])) _
                (scan_ports-Stays instances ([], [])) λ issues s. refl

  pub policy-Stays : (name : String) → Stays seen (policy {rt = rt} name)
  unfolding policy attempt
  policy-Stays name =
      then-Stays seen (on_store Store.list_containers) _
        (on_store-Stays Store.list_containers list_containers-Stays)
        λ items s. elim (Option-cases (find_row name items)) [
          | inl missing ↦ rw missing refl
          | inr (item, found) ↦
              rw found (on_runtime-Stays (stats rt name) (stats-Stays rt quiet name) s)
        ]

  collect_ports-Stays :
      (is : List Instance) (used : List ℤ × List ℤ)
      → Stays all_of (Reading.collect_ports rt used is)
  unfolding Reading.collect_ports
  collect_ports-Stays [] used = λ w. refl
  collect_ports-Stays (i ∷ is) used =
      then-Stays all_of (list_port_forwards rt i.name) _ (list_port_forwards-Stays rt quiet i.name)
        λ forwards. collect_ports-Stays is _

  used_ports-Stays : Stays all_of (Reading.used_ports rt)
  unfolding Reading.used_ports
  used_ports-Stays = then-Stays all_of (list rt) _ (list-Stays rt quiet) λ instances.
      then-Stays all_of (Reading.collect_ports rt ([], []) instances) _
        (collect_ports-Stays instances ([], [])) λ used w. refl

-- A handler that leaves what is seen of the system.
abbrev pub Leaves : {rt : Runtime} → Handler rt → Type 0
Leaves {rt} h = (s : System rt) → seen (h s).1 ≡ seen s

pub only-Leaves :
    {rt : Runtime} (wanted : String) (call : Call) (h : Handler rt)
    → Leaves h
    → Leaves (only wanted call h)
only-Leaves wanted call h k s = elim (Bool-cases (call.http.method =ₛ wanted)) [
  | inl same ↦ rw same (k s)
  | inr other ↦ rw other refl
]

module _ {rt : Runtime} (quiet : IsQuiet rt) (setup : Setup) (moment : Moment) (call : Call) where
  pub metrics-Leaves : Leaves {rt = rt} (Metrics.metrics setup moment call)
  unfolding Metrics.metrics
  metrics-Leaves = only-Leaves "GET" call _ λ s. elim (Result-cases (list rt s.world).0) [
    | inr (e, broke) ↦ rw broke (after_list s)
    | inl (instances, done) ↦ rw done (elim (Result-cases (Store.list_containers s.db).0) [
      | inr (e, broke) ↦ rw broke (after_both s)
      | inl (managed, listed) ↦ rw listed (after_both s)
    ])
  ]
    where
      after_list : (s : System rt) → seen (on_runtime (list rt) s).1 ≡ seen s
      after_list = on_runtime-Stays rt quiet (list rt) (list-Stays rt quiet)

      after_both :
          (s : System rt)
          → seen (on_store Store.list_containers (on_runtime (list rt) s).1).1 ≡ seen s
      after_both s =
          on_store-Stays rt quiet Store.list_containers list_containers-Stays _ ∙ after_list s

  pub diagnostics-Leaves : Leaves {rt = rt} (Metrics.diagnostics setup moment call)
  unfolding Metrics.diagnostics
  diagnostics-Leaves = only-Leaves "GET" call _ λ s.
      reconcile-Stays rt quiet _
      ∙ on_runtime-Stays rt quiet (probe rt setup.probe_json)
          (probe-Stays rt quiet setup.probe_json) s

  pub capabilities-Leaves : Leaves {rt = rt} (Reading.capabilities setup moment call)
  unfolding Reading.capabilities
  capabilities-Leaves = only-Leaves "GET" call _ (
      on_runtime-Stays rt quiet (probe rt setup.probe_json) (probe-Stays rt quiet setup.probe_json))

  pub host-Leaves : Leaves {rt = rt} (Reading.host setup moment call)
  unfolding Reading.host
  host-Leaves = only-Leaves "GET" call _ λ s. refl

  pub templates-Leaves : Leaves {rt = rt} (Reading.templates setup moment call)
  unfolding Reading.templates
  templates-Leaves = only-Leaves "GET" call _ λ s. refl

  pub managed_containers-Leaves : Leaves {rt = rt} (Reading.managed_containers setup moment call)
  unfolding Reading.managed_containers
  managed_containers-Leaves =
      only-Leaves "GET" call _ (on_store-Stays rt quiet Store.list_containers list_containers-Stays)

  pub audit_events-Leaves : Leaves {rt = rt} (Reading.audit_events setup moment call)
  unfolding Reading.audit_events
  audit_events-Leaves =
      only-Leaves "GET" call _
        (on_store-Stays rt quiet (Store.list_audit _ _) (list_audit-Stays _ _))

  pub backup-Leaves : Leaves {rt = rt} (Reading.backup setup moment call)
  unfolding Reading.backup
  backup-Leaves =
      only-Leaves "GET" call _
        (on_store-Stays rt quiet (Store.export moment.now_text) (export-Stays moment.now_text))

  pub reconcile_api-Leaves : Leaves {rt = rt} (Reading.reconcile_api setup moment call)
  unfolding Reading.reconcile_api
  reconcile_api-Leaves = only-Leaves "GET" call _ (reconcile-Stays rt quiet)

  pub ports-Leaves : Leaves {rt = rt} (Reading.ports setup moment call)
  unfolding Reading.ports
  ports-Leaves =
      only-Leaves "GET" call _
        (on_runtime-Stays rt quiet (Reading.used_ports rt) (used_ports-Stays rt quiet))
