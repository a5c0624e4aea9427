-- ===== src/Store/Schema/Tests.antt =====
-- internal/store/store.go: Open on a new file and on one of the first version.
use natbox.Prelude.{
  ◌≡◌, ◌≢◌, eq_iff, refl, true, false, String, none, some, List, [], ◌∷◌, pos, ok, trim_space,
}
use mathlib.Core.List.Permᴰ
use mathlib.Core.List.{Permᴰ}
use natbox.Store.Schema.{
  Value, text, integer, Schema, policy_columns, open_store, migrate, has_column, audit_columns,
}
use natbox.Store.Schema.Widening.{Keeps}
use natbox.Store.Schema.Retrying.{IsMigrated, Opens, granted, open_store-Opens, open_store_again}
use natbox.Store.Schema.Reopening.{open_store-same}

-- A file from before the policies, whose first statement finds the database locked.
abbrev old_file : Schema
old_file = record {
  migrations = some ((1, "2024-01-01T00:00:00Z") ∷ []);
  managed_containers = some (record {
    columns = "name" ∷ "image" ∷ "created_at" ∷ [];
    rows = (("name", text "web") ∷ ("image", text "alpine") ∷ ("created_at", text "t0") ∷ []) ∷ [];
  });
  audit_events = none;
  indexed = false;
  faults = none ∷ none ∷ none ∷ none ∷ some "database is locked" ∷ [];
}

named : trim_space "natbox.db" ≢ ""
unfolding trim_space
named e = cc ((eq_iff (trim_space "natbox.db") "").1 e)

-- The columns in another order.
abbrev order : List (String × Value)
order =
    ("quota_rx_baseline", integer (pos 0))
    ∷ ("quota_bytes", integer (pos 0))
    ∷ ("quota_tx_baseline", integer (pos 0))
    ∷ ("quota_reset_at", text "")
    ∷ ("expires_at", text "")
    ∷ []

order_whole : Permᴰ order policy_columns
order_whole = Permᴰ.swap refl refl

open_store-Opens_example : Opens old_file (open_store "natbox.db" "." granted order "t1" old_file)
unfolding has_column
open_store-Opens_example =
    open_store-Opens "natbox.db" "." order "t1" order_whole granted old_file refl

open_store_again_example :
    let first = (open_store "natbox.db" "." granted order "t1" old_file).1 in
    let second =
      open_store "natbox.db" "." granted policy_columns "t2" (record first { faults = [] }) in
    (second.0 ≡ ok tt) × IsMigrated second.1 × Keeps old_file second.1
unfolding has_column
open_store_again_example =
    open_store_again "natbox.db" "." order policy_columns "t1" "t2" granted old_file order_whole
      (Permᴰ.refl policy_columns) refl named

-- The same file as the first success leaves it.
abbrev new_file : Schema
new_file = record {
  migrations = some ((1, "2024-01-01T00:00:00Z") ∷ (2, "t2") ∷ []);
  managed_containers = some (record {
    columns =
        "name" ∷ "image" ∷ "created_at" ∷ "quota_bytes" ∷ "quota_rx_baseline" ∷ "quota_tx_baseline"
        ∷ "quota_reset_at" ∷ "expires_at" ∷ [];
    rows =
        (("name", text "web")
          ∷ ("image", text "alpine")
          ∷ ("created_at", text "t0")
          ∷ ("quota_bytes", integer (pos 0))
          ∷ ("quota_rx_baseline", integer (pos 0))
          ∷ ("quota_tx_baseline", integer (pos 0))
          ∷ ("quota_reset_at", text "")
          ∷ ("expires_at", text "")
          ∷ [])
        ∷ [];
  });
  audit_events = some (record { columns = audit_columns; rows = [] });
  indexed = true;
  faults = [];
}

migrate-old_file : migrate policy_columns "t2" (record old_file { faults = [] }) ≡ (ok tt, new_file)
unfolding migrate has_column
migrate-old_file = refl

open_store-same_example : open_store "natbox.db" "." granted order "t3" new_file ≡ (ok tt, new_file)
unfolding has_column
open_store-same_example =
    open_store-same "natbox.db" "." order "t3" new_file order_whole
      (refl, refl, refl, refl, refl, refl, refl) named
