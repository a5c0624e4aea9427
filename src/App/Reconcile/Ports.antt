-- ===== src/App/Reconcile/Ports.antt =====
-- reconcile.go: the listen ports of a report, and the containers that use them.
use natbox.Prelude.{
  ◌≡◌, refl, ap, ◌∙◌, Bool, false, not, ◌&&◌, ◌||◌, String, ◌+ₛ◌, Option, none, some, List, [], ◌∷◌,
  ◌++◌, arith, eq_iff, eq_refl, ◌=ₛ◌, any, if◌then◌else◌, Bool-cases, Option-cases, inl, inr,
  format_int, lookup, Result, ok, err,
}
use natbox.Incus.Forwards.Endpoint.{PortForward}
use natbox.App.Reconcile.{
  PortForwardIssue, port_key, use_port, use_ports, step_ports, insert_issue, sort_issues,
}

-- The issues say of a listen port, such as "tcp/2201", that two containers use it.
abbrev pub conflict : String → List PortForwardIssue → Bool
conflict k issues =
    any (λ i. i.kind =ₛ "duplicate_listen_port" && (i.protocol +ₛ "/" +ₛ format_int i.port) =ₛ k)
      issues

conflict-append :
    (k : String) (xs ys : List PortForwardIssue)
    → conflict k (xs ++ ys) ≡ conflict k xs || conflict k ys
conflict-append k [] ys = refl
conflict-append k (x ∷ xs) ys = ground (arith, conflict-append k xs ys)

conflict-insert_issue :
    (k : String) (i : PortForwardIssue) (is : List PortForwardIssue)
    → conflict k (insert_issue i is) ≡ conflict k (i ∷ is)
unfolding insert_issue
conflict-insert_issue k i [] = refl
conflict-insert_issue k i (x ∷ xs) = ground (arith, conflict-insert_issue k i xs)

pub conflict-sort_issues :
    (k : String) (is : List PortForwardIssue) → conflict k (sort_issues is) ≡ conflict k is
unfolding sort_issues
conflict-sort_issues k [] = refl
conflict-sort_issues k (i ∷ is) =
    conflict-insert_issue k i (sort_issues is) ∙ ground (arith, conflict-sort_issues k is)

-- The listen ports with the container of each, in the order of the scan.
abbrev pub Uses : Type 0
Uses = List (String × String)

abbrev pub clash : String → Option String → Bool
clash name none = false
clash name (some other) = not (other =ₛ name)

abbrev pub first : String → Option String → Option String
first name none = some name
first name (some other) = some other

-- Some use of the port is by another container than its first user.
abbrev pub contested : String → Option String → Uses → Bool
contested k o [] = false
contested k o ((c, name) ∷ us) =
    (c =ₛ k && clash name o) || contested k (if c =ₛ k then first name o else o) us

abbrev pub settled : String → Option String → Uses → Option String
settled k o [] = o
settled k o ((c, name) ∷ us) = settled k (if c =ₛ k then first name o else o) us

contested-append :
    (k : String) (o : Option String) (us vs : Uses)
    → contested k o (us ++ vs) ≡ contested k o us || contested k (settled k o us) vs
contested-append k o [] vs = refl
contested-append k o ((c, name) ∷ us) vs =
    ground (arith, contested-append k (if c =ₛ k then first name o else o) us vs)

abbrev pub uses_by : String → List PortForward → Uses
uses_by name [] = []
uses_by name (f ∷ fs) = (port_key f, name) ∷ uses_by name fs

-- A forward, seen at its own port.
use_port-here :
    (name : String) (f : PortForward) (issues : List PortForwardIssue) (used : Uses)
    → (conflict (port_key f) (use_port name f (issues, used)).0
        ≡ conflict (port_key f) issues || clash name (lookup (port_key f) used))
      × (lookup (port_key f) (use_port name f (issues, used)).1
          ≡ first name (lookup (port_key f) used))
unfolding use_port lookup
use_port-here name f issues used = elim (Option-cases (lookup (port_key f) used)) [
  | inl new ↦ rw (use_port, new) (ground arith, ground (arith, eq_refl (port_key f)))
  | inr (other, old) ↦ elim (Bool-cases (other =ₛ name)) [
    | inl same ↦
        rw (use_port, old, same)
          (ground arith, ground (arith, eq_refl (port_key f), eq_iff other name))
    | inr differs ↦
        rw (use_port, old, differs)
          (conflict-append (port_key f) issues _ ∙ ground (arith, eq_refl (port_key f)), old)
  ]
]

-- A forward, seen at another port.
use_port-elsewhere :
    (k name : String) (f : PortForward) (issues : List PortForwardIssue) (used : Uses)
    → (port_key f =ₛ k) ≡ false
    → (conflict k (use_port name f (issues, used)).0 ≡ conflict k issues)
      × (lookup k (use_port name f (issues, used)).1 ≡ lookup k used)
unfolding use_port lookup
use_port-elsewhere k name f issues used h = elim (Option-cases (lookup (port_key f) used)) [
  | inl new ↦ rw (use_port, new) (refl, ground (arith, h))
  | inr (other, old) ↦ elim (Bool-cases (other =ₛ name)) [
    | inl same ↦ rw (use_port, old, same) (refl, ground (arith, h))
    | inr differs ↦
        rw (use_port, old, differs) (conflict-append k issues _ ∙ ground (arith, h), refl)
  ]
]

use_port-conflict :
    (k name : String) (f : PortForward) (acc : List PortForwardIssue × Uses)
    → (conflict k (use_port name f acc).0
        ≡ conflict k acc.0 || (port_key f =ₛ k && clash name (lookup k acc.1)))
      × (lookup k (use_port name f acc).1
          ≡ (if port_key f =ₛ k then first name (lookup k acc.1) else lookup k acc.1))
use_port-conflict k name f acc = elim (Bool-cases (port_key f =ₛ k)) [
  | inl same ↦ rw (same, ← (eq_iff (port_key f) k).0 same) (use_port-here name f acc.0 acc.1)
  | inr differs ↦
      let here = use_port-elsewhere k name f acc.0 acc.1 differs in
      rw differs (ground (arith, here), here.1)
]

use_ports-conflict :
    (k name : String) (fs : List PortForward) (acc : List PortForwardIssue × Uses)
    → (conflict k (use_ports name fs acc).0
        ≡ conflict k acc.0 || contested k (lookup k acc.1) (uses_by name fs))
      × (lookup k (use_ports name fs acc).1 ≡ settled k (lookup k acc.1) (uses_by name fs))
unfolding use_ports
use_ports-conflict k name [] acc = (ground arith, refl)
use_ports-conflict k name (f ∷ fs) acc =
    let ih = use_ports-conflict k name fs (use_port name f acc) in
    let here = use_port-conflict k name f acc in
    (
      ih.0 ∙ rw (here.0, here.1) (ground arith),
      ih.1 ∙ ap (λ o. settled k o (uses_by name fs)) here.1,
    )

-- What a scan reads of each instance.
abbrev pub Readings : Type 0
Readings = List (String × Result (List PortForward))

-- A list that cannot be read has no uses.
abbrev pub uses_in : Result (List PortForward) → String → Uses
uses_in (ok forwards) name = uses_by name forwards
uses_in (err e) name = []

abbrev pub uses_of : Readings → Uses
uses_of [] = []
uses_of ((name, r) ∷ rs) = uses_in r name ++ uses_of rs

unfoldable pub scanned : Readings → List PortForwardIssue × Uses → List PortForwardIssue × Uses
scanned [] acc = acc
scanned ((name, r) ∷ rs) acc = scanned rs (step_ports name r acc)

step_ports-conflict :
    (k name : String) (r : Result (List PortForward)) (acc : List PortForwardIssue × Uses)
    → (conflict k (step_ports name r acc).0
        ≡ conflict k acc.0 || contested k (lookup k acc.1) (uses_in r name))
      × (lookup k (step_ports name r acc).1 ≡ settled k (lookup k acc.1) (uses_in r name))
step_ports-conflict k name (ok forwards) acc = use_ports-conflict k name forwards acc
step_ports-conflict k name (err e) acc = (conflict-append k acc.0 _ ∙ ground arith, refl)

pub scanned-conflict :
    (k : String) (rs : Readings) (acc : List PortForwardIssue × Uses)
    → conflict k (scanned rs acc).0 ≡ conflict k acc.0 || contested k (lookup k acc.1) (uses_of rs)
unfolding scanned
scanned-conflict k [] acc = ground arith
scanned-conflict k ((name, r) ∷ rs) acc =
    let here = step_ports-conflict k name r acc in
    scanned-conflict k rs (step_ports name r acc)
    ∙ rw (here.0, here.1)
        (ground (arith, contested-append k (lookup k acc.1) (uses_in r name) (uses_of rs)))
