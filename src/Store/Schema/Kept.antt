-- ===== src/Store/Schema/Kept.antt =====
-- internal/store/store.go: what Open leaves of a database file that it migrates.
use natbox.Prelude.{
  ◌+ₛ◌, ℕ, ◌≡◌, refl, sym, All, String, Option, none, some, List, [], ◌∷◌, ◌=ₛ◌, Exec, ok,
  Bool-cases, Option-cases, inl, inr, reject, refuse, trim_space, if◌then◌else◌, pure, ◌>>=◌,
}
use mathlib.Core.Path.{subst}
use mathlib.Core.List.{Permᴰ, Memᴰ}
use natbox.Prelude.Follows
use natbox.Prelude.Follows.{Follows}
use natbox.Store.{next_fault, later_faults}
use natbox.Store.Schema
use natbox.Store.Schema.{
  Value, Table, Schema, Opening, statement, wrapping, statements, run_statements, create_index,
  add_column, ensure_column, ensure_policy_columns, insert_version, record_version, migrate,
  open_store, has_column, indexable, is_recorded, inspected, policy_columns,
}
use natbox.Store.Schema.Widening.{
  Keeps, Keeps-here, Keeps-trans, KeepsTable-refl, KeepsTable-or_new, KeepsVersions-refl,
  KeepsVersions-or_new, KeepsEvents-refl, KeepsEvents-or_new, IsPolicyColumn, widened-Widens,
}

then-Keeps :
    {A B : Type 0} (m : Exec Schema A) (f : A → Exec Schema B)
    → Follows Keeps m
    → ((a : A) → Follows Keeps (f a))
    → Follows Keeps (m >>= f)
then-Keeps = Follows.then-Follows Keeps Keeps-here Keeps-trans

statement-Keeps :
    {A : Type 0} (body : Exec Schema A) → Follows Keeps body → Follows Keeps (statement body)
statement-Keeps body k = record {
  at = λ s. elim (Option-cases (next_fault s.faults)) [
    | inl passed ↦ rw passed (k.at (record s { faults = later_faults s.faults }))
    | inr (problem, refused) ↦ rw refused (Keeps-here s)
  ];
}

wrapping-Keeps :
    {A : Type 0} (prefix : String) (m : Exec Schema A)
    → Follows Keeps m
    → Follows Keeps (wrapping prefix m)
wrapping-Keeps prefix m k = record { at = k.at }

create_index-Keeps : Follows Keeps create_index
create_index-Keeps = record {
  at = λ s. elim (Bool-cases s.indexed) [
    | inl there ↦ rw there (Keeps-here s)
    | inr new ↦ rw new (elim (Bool-cases (indexable s.audit_events)) [
      | inl fits ↦ rw fits (Keeps-here s)
      | inr misses ↦ rw misses (Keeps-here s)
    ])
  ];
}

abbrev AllKeep : List (Exec Schema (Unit {0})) → Type 0
AllKeep [] = Unit
AllKeep (body ∷ bodies) = Follows Keeps body × AllKeep bodies

run_statements-Keeps :
    (bodies : List (Exec Schema (Unit {0})))
    → AllKeep bodies
    → Follows Keeps (run_statements bodies)
unfolding run_statements
run_statements-Keeps [] k = record { at = Keeps-here }
run_statements-Keeps (body ∷ bodies) k =
    then-Keeps (wrapping "database migration: " (statement body)) _
      (wrapping-Keeps _ _ (statement-Keeps body k.0)) λ _. run_statements-Keeps bodies k.1

statements-Keep : AllKeep statements
statements-Keep =
    let same : Follows Keeps (pure {S = Schema} tt) = record { at = Keeps-here } in
    let versions : Follows Keeps (Schema.create_versions) = record {
      at = λ s. (
        KeepsTable-refl s.managed_containers,
        KeepsEvents-refl s.audit_events,
        KeepsVersions-or_new s.migrations,
      );
    } in
    let containers : Follows Keeps (Schema.create_containers) = record {
      at = λ s. (
        KeepsTable-or_new _ s.managed_containers,
        KeepsEvents-refl s.audit_events,
        KeepsVersions-refl s.migrations,
      );
    } in
    let events : Follows Keeps (Schema.create_events) = record {
      at = λ s. (
        KeepsTable-refl s.managed_containers,
        KeepsEvents-or_new _ s.audit_events,
        KeepsVersions-refl s.migrations,
      );
    } in
    (same, (same, (same, (versions, (containers, (events, (create_index-Keeps, tt)))))))

add_column-Keeps :
    (column : String × Value)
    → IsPolicyColumn column
    → Follows Keeps (λ s. add_column column s.managed_containers s)
add_column-Keeps column policy = record { at = λ s. added s s.managed_containers refl }
  where
    added :
        (s : Schema) (o : Option Table)
        → s.managed_containers ≡ o
        → Keeps s (add_column column o s).1
    added s none e = Keeps-here s
    added s (some t) e = elim (Bool-cases (has_column (column.0) t.columns)) [
      | inl there ↦ rw there (Keeps-here s)
      | inr new ↦ rw new (
        rw e (widened-Widens column t policy),
        KeepsEvents-refl s.audit_events,
        KeepsVersions-refl s.migrations,
      )
    ]

ensure_column-Keeps :
    (column : String × Value) → IsPolicyColumn column → Follows Keeps (ensure_column column)
unfolding ensure_column
ensure_column-Keeps column policy =
    then-Keeps
      (wrapping ("inspect policy column " +ₛ column.0 +ₛ ": ")
        (statement (λ s. (ok (inspected (column.0) s.managed_containers), s))))
      _ (wrapping-Keeps _ _ (statement-Keeps _ (record { at = Keeps-here })))
      λ there.
        Follows.if-Follows Keeps Keeps-here Keeps-trans there _ _ (record { at = Keeps-here })
          (wrapping-Keeps ("add policy column " +ₛ column.0 +ₛ ": ")
            (statement (λ s. add_column column s.managed_containers s))
            (statement-Keeps _ (add_column-Keeps column policy)))

ensure_policy_columns-Keeps :
    (order : List (String × Value))
    → All IsPolicyColumn order
    → Follows Keeps (ensure_policy_columns order)
unfolding ensure_policy_columns
ensure_policy_columns-Keeps [] policies = record { at = Keeps-here }
ensure_policy_columns-Keeps (column ∷ columns) policies =
    then-Keeps _ _ (ensure_column-Keeps column policies.0)
      λ _. ensure_policy_columns-Keeps columns policies.1

insert_version-Keeps :
    (version : ℕ) (now : String) → Follows Keeps (λ s. insert_version version now s.migrations s)
insert_version-Keeps version now = record { at = λ s. inserted s s.migrations refl }
  where
    inserted :
        (s : Schema) (o : Option (List (ℕ × String)))
        → s.migrations ≡ o
        → Keeps s (insert_version version now o s).1
    inserted s none e = Keeps-here s
    inserted s (some rows) e = elim (Bool-cases (is_recorded version rows)) [
      | inl there ↦ rw there (Keeps-here s)
      | inr new ↦ rw new (
        KeepsTable-refl s.managed_containers,
        KeepsEvents-refl s.audit_events,
        rw e ((version, now) ∷ [], refl),
      )
    ]

record_version-Keeps :
    (prefix : String) (version : ℕ) (now : String)
    → Follows Keeps (record_version prefix version now)
unfolding record_version
record_version-Keeps prefix version now =
    wrapping-Keeps prefix (statement (λ s. insert_version version now s.migrations s))
      (statement-Keeps _ (insert_version-Keeps version now))

policies_listed : All IsPolicyColumn policy_columns
policies_listed = (
  Memᴰ.head refl,
  (
    Memᴰ.tail (Memᴰ.head refl),
    (
      Memᴰ.tail (Memᴰ.tail (Memᴰ.head refl)),
      (
        Memᴰ.tail (Memᴰ.tail (Memᴰ.tail (Memᴰ.head refl))),
        (Memᴰ.tail (Memᴰ.tail (Memᴰ.tail (Memᴰ.tail (Memᴰ.head refl)))), tt),
      ),
    ),
  ),
)

-- The columns in another order.
All-perm :
    {xs ys : List (String × Value)} → Permᴰ xs ys → All IsPolicyColumn ys → All IsPolicyColumn xs
All-perm Permᴰ.nil h = h
All-perm (Permᴰ.cons e p) h = (subst IsPolicyColumn (sym e) h.0, All-perm p h.1)
All-perm (Permᴰ.swap e f) h =
    (subst IsPolicyColumn (sym e) h.1.0, (subst IsPolicyColumn (sym f) h.0, h.1.1))
All-perm (Permᴰ.trans p q) h = All-perm p (All-perm q h)

pub migrate-Keeps :
    (order : List (String × Value)) (now : String)
    → Permᴰ order policy_columns
    → Follows Keeps (migrate order now)
unfolding migrate
migrate-Keeps order now whole =
    then-Keeps _ _ (run_statements-Keeps statements statements-Keep) λ _.
      then-Keeps _ _ (ensure_policy_columns-Keeps order (All-perm whole policies_listed)) λ _.
        then-Keeps _ _ (record_version-Keeps "record database migration: " 1 now)
          λ _. record_version-Keeps "record policy migration: " 2 now

pub open_store-Keeps :
    (path directory : String) (opening : Opening) (order : List (String × Value)) (now : String)
    → Permᴰ order policy_columns
    → Follows Keeps (open_store path directory opening order now)
unfolding open_store
open_store-Keeps path directory opening order now whole =
    then-Keeps (reject (trim_space path =ₛ "") "database path is required") _
      (Follows.reject-Follows Keeps Keeps-here Keeps-trans _ _)
      λ _.
        then-Keeps
          (refuse (
            if directory =ₛ "."
            then none
            else Schema.fault_text "create database directory: " opening.directory_fault))
          _ (Follows.refuse-Follows Keeps Keeps-here Keeps-trans _)
          λ _.
            then-Keeps (refuse (Schema.fault_text "open database: " opening.driver_fault)) _
              (Follows.refuse-Follows Keeps Keeps-here Keeps-trans _)
              λ _.
                then-Keeps (refuse (Schema.chmod_fault opening.chmod)) _
                  (Follows.refuse-Follows Keeps Keeps-here Keeps-trans _)
                  λ _. migrate-Keeps order now whole
