-- ===== src/App/Reconcile/Shared.antt =====
-- reconcile.go: the listen ports that several containers use, and the issues of a report about them.
use natbox.Prelude.{
  ◌≡◌, ◌↔◌, refl, ◌∙◌, Bool, true, false, ◌&&◌, String, none, some, List, [], ◌∷◌, arith, eq_iff,
  eq_refl, ◌=ₛ◌, any, Bool-cases, inl, inr, lookup, ok, attempt,
}
use natbox.Incus.Runner.{Runtime, Instance}
use natbox.Incus.Forwards.Listing.{list_port_forwards}
use natbox.Store.{ManagedContainer}
use natbox.App.Base.{System, on_runtime}
use natbox.App.Reconcile.{PortForwardIssue, step_ports, sort_issues, scan_ports, report_of}
use natbox.App.Reconcile.Ports.{
  conflict, conflict-sort_issues, Uses, clash, contested, Readings, uses_of, scanned,
  scanned-conflict,
}

-- The container has a forward with the listen port.
abbrev pub taken_by : String → String → Uses → Bool
taken_by k name uses = any (λ u. u.0 =ₛ k && u.1 =ₛ name) uses

-- Two containers use one listen port.
pub record IsShared (k : String) (uses : Uses) : Type 0 where
  pub a : String
  pub b : String
  pub a_takes : taken_by k a uses ≡ true
  pub b_takes : taken_by k b uses ≡ true
  pub distinct : (a =ₛ b) ≡ false

-- Behind a first user: another container that takes the port.
contested-another :
    (k m : String) (us : Uses)
    → contested k (some m) us ≡ true
    → (b : String) × (taken_by k b us ≡ true) × ((m =ₛ b) ≡ false)
contested-another k m [] h = absurd (ground arith)
contested-another k m ((c, name) ∷ us) h = elim (Bool-cases (c =ₛ k && clash name (some m))) [
  | inl here ↦ (name, ground (arith, eq_refl name), ground arith)
  | inr later ↦
      let (b, takes, other) = contested-another k m us (ground arith) in (b, ground arith, other)
]

another-contested :
    (k m b : String) (us : Uses)
    → taken_by k b us ≡ true
    → (m =ₛ b) ≡ false
    → contested k (some m) us ≡ true
another-contested k m b [] h d = h
another-contested k m b ((c, name) ∷ us) h d = elim (Bool-cases (c =ₛ k && name =ₛ b)) [
  | inl here ↦ ground (arith, eq_iff name b)
  | inr later ↦ ground (arith, another-contested k m b us)
]

contested-IsShared : (k : String) (us : Uses) → contested k none us ≡ true → IsShared k us
contested-IsShared k [] h = absurd (ground arith)
contested-IsShared k ((c, name) ∷ us) h = elim (Bool-cases (c =ₛ k)) [
  | inl same ↦
      let (b, takes, other) = contested-another k name us (ground arith) in
      record {
        a = name;
        b = b;
        a_takes = ground (arith, eq_refl name);
        b_takes = ground arith;
        distinct = other;
      }
  | inr differs ↦
      let ih = contested-IsShared k us (ground arith) in
      record {
        a = ih.a;
        b = ih.b;
        a_takes = ground (arith, ih.a_takes);
        b_takes = ground (arith, ih.b_takes);
        distinct = ih.distinct;
      }
]

IsShared-contested : (k : String) (us : Uses) → IsShared k us → contested k none us ≡ true
IsShared-contested k [] sh = sh.a_takes
IsShared-contested k ((c, name) ∷ us) sh = elim (Bool-cases (c =ₛ k)) [
  | inl same ↦ elim (Bool-cases (name =ₛ sh.a)) [
    | inl its ↦
        let d : (name =ₛ sh.b) ≡ false = rw ((eq_iff name sh.a).0 its) sh.distinct in
        rw same (another-contested k name sh.b us (ground (arith, sh.b_takes, d)) d)
    | inr other ↦
        rw same (another-contested k name sh.a us (ground (arith, sh.a_takes, other)) other)
  ]
  | inr differs ↦ rw differs (
      IsShared-contested k us (record {
        a = sh.a;
        b = sh.b;
        a_takes = ground (arith, sh.a_takes, differs);
        b_takes = ground (arith, sh.b_takes, differs);
        distinct = sh.distinct;
      }))
]

module _ {rt : Runtime} where
  -- What the scan reads of the instances, one behind the other.
  abbrev pub listings : List Instance → System rt → Readings
  listings [] s = []
  listings (i ∷ is) s =
      let (r, s') = on_runtime (list_port_forwards rt i.name) s in (i.name, r) ∷ listings is s'

  scan_ports-scanned :
      (is : List Instance) (s : System rt) (acc : List PortForwardIssue × Uses)
      → (scan_ports is acc s).0 ≡ ok (scanned (listings is s) acc).0
  unfolding scan_ports attempt scanned
  scan_ports-scanned [] s acc = refl
  scan_ports-scanned (i ∷ is) s acc =
      let (r, s') = on_runtime (list_port_forwards rt i.name) s in
      scan_ports-scanned is s' (step_ports i.name r acc)

  -- The scan of the listen ports always succeeds, and a report with its issues says of a port that it is
  -- assigned twice just when two containers whose forwards could be read have a forward with it.
  pub scan_ports-IsShared :
      (managed : List ManagedContainer) (instances : List Instance) (s : System rt) (k : String)
      → (issues : List PortForwardIssue) × ((scan_ports instances ([], []) s).0 ≡ ok issues)
        × ((conflict k (report_of managed instances issues).port_forward_issues ≡ true)
            ↔ IsShared k (uses_of (listings instances s)))
  unfolding report_of lookup
  scan_ports-IsShared managed instances s k =
      let issues = (scanned (listings instances s) ([], [])).0 in
      let found : conflict k (sort_issues issues)
          ≡ contested k none (uses_of (listings instances s)) =
        conflict-sort_issues k issues ∙ scanned-conflict k (listings instances s) ([], []) in
      (
        issues,
        scan_ports-scanned instances s ([], []),
        rw found (contested-IsShared k _, IsShared-contested k _),
      )
