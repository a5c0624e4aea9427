-- ===== src/Store/Schema/Columns.antt =====
-- internal/store/store.go: ensurePolicyColumns, and the versions that migrate records.
use natbox.Prelude.{
  ℕ, Bool, true, false, ◌≡◌, refl, sym, ap, ◌∙◌, String, Option, none, some, List, [], ◌∷◌, ◌++◌,
  ◌=ₛ◌, ◌&&◌, ◌||◌, ◌+ₛ◌, all, ok, if◌then◌else◌, pure, arith, ◌==◌, eq_refl,
}
use natbox.Store.Schema.{
  Value, Table, Schema, statement, wrapping, add_column, ensure_column, ensure_policy_columns,
  insert_version, record_version, has_column, is_recorded, inspected, widened,
}
use natbox.Store.Schema.Running.{
  IsUsable, Runs, then-Runs, Does, wrapped-Runs, statement-Runs, weaken-Runs,
}
use natbox.Store.Schema.Migrating.{Indexed, is_some, if_intro}

-- All of these columns are there.
abbrev pub present : List (String × Value) → Option Table → Bool
present columns o = all (λ c. inspected (c.0) o) columns

abbrev pub Ensured : List (String × Value) → Schema → Type 0
Ensured columns s =
    (present columns s.managed_containers ≡ true)
    × (s.indexed ≡ true)
    × (is_some s.audit_events ≡ true)
    × (is_some s.managed_containers ≡ true)
    × (is_some s.migrations ≡ true)
    × IsUsable s

has_column-append :
    (j : String) (cs : List String) (c : String)
    → has_column j (cs ++ c ∷ []) ≡ (has_column j cs || c =ₛ j)
unfolding has_column
has_column-append j [] c = ground arith
has_column-append j (d ∷ ds) c = ground (arith, has_column-append j ds c)

present-widened :
    (columns : List (String × Value)) (column : String × Value) (t : Table)
    → present columns (some t) ≡ true
    → present columns (some (widened column t)) ≡ true
present-widened [] column t h = refl
present-widened (c ∷ cs) column t h =
    ground (arith, has_column-append (c.0) t.columns (column.0), present-widened cs column t)

-- What the inspection of a column answers.
abbrev Inspected : List (String × Value) → String × Value → Bool → Schema → Type 0
Inspected columns column there s =
    (inspected (column.0) s.managed_containers ≡ there)
    × (present columns s.managed_containers ≡ true)
    × (s.indexed ≡ true)
    × (is_some s.audit_events ≡ true)
    × (is_some s.managed_containers ≡ true)
    × (is_some s.migrations ≡ true)
    × IsUsable s

module _ (columns : List (String × Value)) (column : String × Value) where
  add_column-Does :
      (s : Schema) (o : Option Table)
      → s.managed_containers ≡ o
      → Inspected columns column false s
      → Does (λ _. Ensured (column ∷ columns)) s (add_column column o s)
  add_column-Does s none e h = ground (arith, e, ap is_some e, h.4)
  add_column-Does s (some t) e h =
      let fresh = sym (ap (inspected (column.0)) e) ∙ h.0 in
      if_intro (Does (λ _. Ensured (column ∷ columns)) s) (has_column (column.0) t.columns) _ _
        (λ there. cc (there, fresh))
        λ new. (
          (
            ground (
              arith,
              has_column-append (column.0) t.columns (column.0),
              eq_refl (column.0),
              present-widened columns column t (ap (present columns) (sym e) ∙ h.1),
            ),
            h.2,
            h.3,
            refl,
            h.5,
            h.6,
          ),
          refl,
        )

  ensure_column-Runs :
      Runs (Ensured columns) (λ _. Ensured (column ∷ columns)) (ensure_column column)
  unfolding ensure_column
  ensure_column-Runs =
      then-Runs (Inspected columns column) _ _
        (wrapped-Runs _ _ (
          statement-Runs (Ensured columns) (Inspected columns column)
            (λ s. (ok (inspected (column.0) s.managed_containers), s)) (λ s h. h.5) (λ s fs h. h)
            λ s h. ((refl, h.0, h.1, h.2, h.3, h.4, h.5), refl)))
        decided
    where
      decided :
          (there : Bool)
          → Runs
              (Inspected columns column there)
              (λ _. Ensured (column ∷ columns))
              (if there
                then pure tt
                else wrapping
                    ("add policy column " +ₛ column.0 +ₛ ": ")
                    (statement (λ s. add_column column s.managed_containers s)))
      decided true = record {
        at = λ s h. ((ground (arith, h.0, h.1), h.2, h.3, h.4, h.5, h.6), λ e. e);
      }
      decided false = wrapped-Runs _ _ (
          statement-Runs (Inspected columns column false) (λ _. Ensured (column ∷ columns))
            (λ s. add_column column s.managed_containers s) (λ s h. h.6) (λ s fs h. h)
            λ s h. add_column-Does s s.managed_containers refl h)

-- The columns in the order in which they were ensured, the last one first.
abbrev onto : List (String × Value) → List (String × Value) → List (String × Value)
onto [] done = done
onto (c ∷ cs) done = onto cs (c ∷ done)

present-onto :
    (cs done : List (String × Value)) (o : Option Table)
    → present (onto cs done) o ≡ (present cs o && present done o)
present-onto [] done o = refl
present-onto (c ∷ cs) done o = ground (arith, present-onto cs (c ∷ done) o)

ensure_columns-Runs :
    (order done : List (String × Value))
    → Runs (Ensured done) (λ _. Ensured (onto order done)) (ensure_policy_columns order)
unfolding ensure_policy_columns
ensure_columns-Runs [] done = record { at = λ s h. (h, λ e. e) }
ensure_columns-Runs (c ∷ cs) done =
    then-Runs (λ _. Ensured (c ∷ done)) _ _ (ensure_column-Runs done c)
      λ _. ensure_columns-Runs cs (c ∷ done)

pub ensure_policy_columns-Runs :
    (order : List (String × Value))
    → Runs Indexed (λ _. Ensured order) (ensure_policy_columns order)
ensure_policy_columns-Runs order =
    weaken-Runs _ (λ s h. (refl, h.0, h.1, h.2, h.3, h.4))
      (λ _ s h.
        (ground (arith, present-onto order [] s.managed_containers, h.0), h.1, h.2, h.3, h.4, h.5))
      (ensure_columns-Runs order [])

-- The version is among those that were recorded.
abbrev pub recorded : ℕ → Option (List (ℕ × String)) → Bool
recorded version none = false
recorded version (some rows) = is_recorded version rows

is_recorded-append :
    (version w : ℕ) (now : String) (rows : List (ℕ × String))
    → is_recorded version (rows ++ (w, now) ∷ []) ≡ (is_recorded version rows || w == version)
is_recorded-append version w now [] = ground arith
is_recorded-append version w now (row ∷ rows) =
    ground (arith, is_recorded-append version w now rows)

-- The versions of `done` are recorded, over a schema with the columns.
abbrev pub Recorded : List (String × Value) → List ℕ → Schema → Type 0
Recorded columns done s =
    (all (λ v. recorded v s.migrations) done ≡ true)
    × (present columns s.managed_containers ≡ true)
    × (s.indexed ≡ true)
    × (is_some s.audit_events ≡ true)
    × (is_some s.managed_containers ≡ true)
    × (is_some s.migrations ≡ true)
    × IsUsable s

all-recorded-append :
    (done : List ℕ) (version : ℕ) (now : String) (rows : List (ℕ × String))
    → all (λ v. recorded v (some rows)) done ≡ true
    → all (λ v. recorded v (some (rows ++ (version, now) ∷ []))) done ≡ true
all-recorded-append [] version now rows h = refl
all-recorded-append (v ∷ vs) version now rows h =
    ground (arith, is_recorded-append v version now rows, all-recorded-append vs version now rows)

module _ (columns : List (String × Value)) (done : List ℕ) (version : ℕ) (now : String) where
  insert_version-Does :
      (s : Schema) (o : Option (List (ℕ × String)))
      → s.migrations ≡ o
      → Recorded columns done s
      → Does (λ _. Recorded columns (version ∷ done)) s (insert_version version now o s)
  insert_version-Does s none e h = ground (arith, ap is_some e, h.5)
  insert_version-Does s (some rows) e h =
      if_intro (Does (λ _. Recorded columns (version ∷ done)) s) (is_recorded version rows) _ _
        (λ there. (
          (ground (arith, ap (recorded version) e, there, h.0), h.1, h.2, h.3, h.4, h.5, h.6),
          refl,
        ))
        λ new. (
          (
            ground (
              arith,
              is_recorded-append version version now rows,
              all-recorded-append done version now rows
                  (sym (ap (λ o. all (λ v. recorded v o) done) e) ∙ h.0),
            ),
            h.1,
            h.2,
            h.3,
            h.4,
            refl,
            h.6,
          ),
          refl,
        )

  pub record_version-Runs :
      (prefix : String)
      → Runs
          (Recorded columns done)
          (λ _. Recorded columns (version ∷ done))
          (record_version prefix version now)
  unfolding record_version
  record_version-Runs prefix = wrapped-Runs _ _ (
      statement-Runs (Recorded columns done) (λ _. Recorded columns (version ∷ done))
        (λ s. insert_version version now s.migrations s) (λ s h. h.6) (λ s fs h. h)
        λ s h. insert_version-Does s s.migrations refl h)
