-- ===== src/Store/Schema/Running.antt =====
-- internal/store/store.go: outcomes of the steps of a migration. A step that succeeds has done its part, and
-- only what the driver refuses makes one fail.
use natbox.Prelude.{
  true, ◌≡◌, ◌≢◌, ap, ◌∙◌, String, Option, some, List, [], Exec, Result, ok, err, Option-cases, inl,
  inr, ◌>>=◌, arith, continue,
}
use natbox.Store.{next_fault, later_faults}
use natbox.Store.Schema
use natbox.Store.Schema.{
  Value, Table, Schema, statement, wrapping, statements, run_statements, create_index,
  create_versions, create_containers, create_events, add_column, ensure_column,
  ensure_policy_columns, policy_columns, insert_version, record_version, migrate, has_column,
  indexable, is_recorded, inspected, widened, or_new, audit_columns,
}

-- The audit table, if it is there, has the columns of the index.
abbrev pub IsUsable : Schema → Type 0
IsUsable s =
    indexable (or_new (record { columns = audit_columns; rows = [] }) s.audit_events) ≡ true

-- What an outcome says: a success what the step is for; an error that the driver had something to refuse.
abbrev pub After : {A : Type 0} → (A → Schema → Type 0) → Schema → Result A × Schema → Type 0
After Q s (ok a, t) = Q a t × (s.faults ≡ [] → t.faults ≡ [])
After Q s (err e, t) = (s.faults ≢ []) × IsUsable t

pub record Runs {A : Type 0} (P : Schema → Type 0) (Q : A → Schema → Type 0) (m : Exec Schema A)
    : Type 0 where
  pub at : (s : Schema) → P s → After Q s (m s)

continues :
    {A B : Type 0} (Q : A → Schema → Type 0) (R : B → Schema → Type 0) (s : Schema)
    (r : Result A × Schema) (f : A → Exec Schema B)
    → After Q s r
    → ((a : A) → Runs (Q a) R (f a))
    → After R s (continue (r.0) f (r.1))
continues Q R s (err e, t) f h k = h
continues {B} Q R s (ok a, t) f h k = onwards (f a t) ((k a).at t (h.0))
  where
    onwards : (r : Result B × Schema) → After R t r → After R s r
    onwards (ok b, u) g = (g.0, λ e. g.1 (h.1 e))
    onwards (err e, u) g = (λ e. g.0 (h.1 e), g.1)

pub then-Runs :
    {A B : Type 0} {P : Schema → Type 0} (Q : A → Schema → Type 0) {R : B → Schema → Type 0}
    (m : Exec Schema A) (f : A → Exec Schema B)
    → Runs P Q m
    → ((a : A) → Runs (Q a) R (f a))
    → Runs P R (m >>= f)
then-Runs Q {R} m f km kf = record { at = λ s p. continues Q R s (m s) f (km.at s p) kf }

-- A body that succeeds with `Q`, and does not touch the schedule of refusals.
abbrev pub Does : {A : Type 0} → (A → Schema → Type 0) → Schema → Result A × Schema → Type 0
Does Q s (ok a, t) = Q a t × (t.faults ≡ s.faults)
Does Q s (err e, t) = ⊥

pub wrapped-Runs :
    {A : Type 0} {P : Schema → Type 0} {Q : A → Schema → Type 0} (prefix : String)
    (m : Exec Schema A)
    → Runs P Q m
    → Runs P Q (wrapping prefix m)
wrapped-Runs {A} {Q} prefix m k = record { at = λ s p. outcome s (m s) (k.at s p) }
  where
    outcome :
        (s : Schema) (r : Result A × Schema)
        → After Q s r
        → After Q s (Schema.wrapped prefix (r.0), r.1)
    outcome s (ok a, t) h = h
    outcome s (err e, t) h = h

next_of_none : (s : Schema) (problem : String) → next_fault s.faults ≡ some problem → s.faults ≢ []
next_of_none s problem e none_left = ground (arith, e, ap next_fault none_left)

pub statement-Runs :
    {A : Type 0} (P : Schema → Type 0) (Q : A → Schema → Type 0) (body : Exec Schema A)
    → ((s : Schema) → P s → IsUsable s)
    → ((s : Schema) (fs : List (Option String)) → P s → P (record s { faults = fs }))
    → ((s : Schema) → P s → Does Q s (body s))
    → Runs P Q (statement body)
statement-Runs {A} P Q body usable shifts does = record {
  at = λ s p. elim (Option-cases (next_fault s.faults)) [
    | inr (problem, refused) ↦ rw refused (next_of_none s problem refused, usable s p)
    | inl passed ↦
        let s' = record s { faults = later_faults s.faults } in
        rw passed (outcome s (body s') (does s' (shifts s _ p)))
  ];
}
  where
    outcome :
        (s : Schema) (r : Result A × Schema)
        → Does Q (record s { faults = later_faults s.faults }) r
        → After Q s r
    outcome s (ok a, t) h = (h.0, λ e. h.1 ∙ ap later_faults e)
    outcome s (err e, t) h = elim h [ ]

pub weaken-Runs :
    {A : Type 0} {P P' : Schema → Type 0} {Q Q' : A → Schema → Type 0} (m : Exec Schema A)
    → ((s : Schema) → P' s → P s)
    → ((a : A) (s : Schema) → Q a s → Q' a s)
    → Runs P Q m
    → Runs P' Q' m
weaken-Runs {A} {Q} {Q'} m before after k = record {
  at = λ s p. outcome s (m s) (k.at s (before s p));
}
  where
    outcome : (s : Schema) (r : Result A × Schema) → After Q s r → After Q' s r
    outcome s (ok a, t) h = (after a t (h.0), h.1)
    outcome s (err e, t) h = h
