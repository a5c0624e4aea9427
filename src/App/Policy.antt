-- ===== src/App/Policy.antt =====
-- policy.go: quotas and expiry.
pub mod Enforcement
pub mod Counting
use natbox.Prelude.{
  ℕ, Bool, true, false, not, ◌&&◌, ◌||◌, String, ◌+ₛ◌, Option, none, some, List, [], ◌∷◌, ℤ, pos,
  ◌+ℤ◌, ◌-ℤ◌, wrap64, ltb_ℤ, leb_ℤ, leb, ◌=ₛ◌, if◌then◌else◌, trim_space, format_int, Error,
  failure, error_text, Result, ok, err, Exec, pure, fail, reject, attempt, ◌>>=◌, ◌>>◌,
}
use natbox.Incus.Runner.{Runtime, Instance}
use natbox.Incus.Query.{NetworkStats, stats, list}
use natbox.Incus.Lifecycle
use natbox.Store
use natbox.Store.{ManagedContainer}
use natbox.Store.Rows.{find_row}
use natbox.App.Base.{Request, System, on_runtime, on_store, record_system_audit}

unfoldable pub counter_delta : ℤ → ℤ → ℤ
counter_delta current baseline =
    if leb_ℤ current baseline then pos 0 else wrap64 (current -ℤ baseline)

-- The bytes that count against the quota, added in int64.
unfoldable pub used_bytes : NetworkStats → ManagedContainer → ℤ
unfolding counter_delta
used_bytes s item = wrap64 (
    counter_delta s.rx_bytes item.quota_rx_baseline
    +ℤ counter_delta s.tx_bytes item.quota_tx_baseline)

pub record PolicyView : Type 0 where
  pub quota_bytes : ℤ
  pub used_bytes : ℤ
  pub remaining_bytes : ℤ
  pub expires_at : String
  pub quota_reset_at : String
  pub quota_enforced : Bool
  pub expiry_enforced : Bool

abbrev measured : Result NetworkStats → ManagedContainer → ℤ
measured (ok s) item = used_bytes s item
measured (err e) item = pos 0

unfoldable pub view_of : ManagedContainer → Result NetworkStats → PolicyView
view_of item counters =
    let used = measured counters item in
    record {
      quota_bytes = item.quota_bytes;
      used_bytes = used;
      remaining_bytes =
          if ltb_ℤ used item.quota_bytes then wrap64 (item.quota_bytes -ℤ used) else pos 0;
      expires_at = item.expires_at;
      quota_reset_at = item.quota_reset_at;
      quota_enforced = ltb_ℤ (pos 0) item.quota_bytes;
      expiry_enforced = not (item.expires_at =ₛ "");
    }

-- Package time: instants as numbers, with RFC 3339 texts read and written.
pub record TimeFormat : Type 0 where
  pub parse : String → Option ℕ
  pub format : ℕ → String

-- The value of the last entry for a name, as a map filled in order has it.
unfoldable pub last_named : String → List Instance → Option Instance
last_named name [] = none
last_named name (i ∷ is) = elim (last_named name is) [
  | some found ↦ some found
  | none ↦ if i.name =ₛ name then some i else none
]

abbrev pub is_running : Option Instance → Bool
is_running none = false
is_running (some i) = i.status =ₛ "Running"

module _ (time : TimeFormat) where
  -- The expiry is a time that can be read, and not after `now`.
  unfoldable pub is_expired : ℕ → ManagedContainer → Bool
  is_expired now item =
      not (item.expires_at =ₛ "")
      && elim (time.parse item.expires_at) [ none ↦ false | some expiry ↦ leb expiry now ]

  abbrev pub normalised : String → Result String
  normalised text = if text =ₛ "" then ok "" else elim (time.parse text) [
    | none ↦ err (failure "expiresAt must be RFC3339")
    | some instant ↦ ok (time.format instant)
  ]

abbrev pub counters_read : Result NetworkStats → Result NetworkStats
counters_read (ok s) = ok s
counters_read (err e) = err (failure ("read current counters: " +ₛ error_text e))

unfoldable pub quota_reason : ℤ → ManagedContainer → Option String
quota_reason used item =
    if leb_ℤ item.quota_bytes used
    then some
        ("quota reached (" +ₛ format_int used +ₛ "/" +ₛ format_int item.quota_bytes +ₛ " bytes)")
    else none

module _ {rt : Runtime} where
  unfoldable pub viewed : String → Option ManagedContainer → Exec (System rt) PolicyView
  unfolding view_of
  viewed name none = fail (failure "container is not managed by Natbox")
  viewed name (some item) = do
    counters ← attempt (on_runtime (stats rt name))
    pure (view_of item counters)

  unfoldable pub policy : String → Exec (System rt) PolicyView
  unfolding viewed
  policy name = do items ← on_store Store.list_containers; viewed name (find_row name items)

  unfoldable pub update_policy :
      TimeFormat → Request → String → ℤ → String → Exec (System rt) PolicyView
  update_policy time request name quota expires = do
    reject (ltb_ℤ quota (pos 0)) "quotaBytes must be zero or positive"
    expires_at ← (λ s. (normalised time (trim_space expires), s))
    measured ← attempt (on_runtime (stats rt name))
    counters ← (λ s. (counters_read measured, s))
    on_store (
        Store.update_policy request.now name quota counters.rx_bytes counters.tx_bytes request.now
          expires_at)
    policy name

  -- Stopping for a reason: the wanted state follows only a stop that succeeded.
  unfoldable pub stop_for : Request → ManagedContainer → String → Exec (System rt) (Unit {0})
  stop_for request item reason = do
    stopped ← attempt (on_runtime (Lifecycle.stop rt item.name))
    elim stopped [
      | err e ↦
          record_system_audit request.now "policy.stop" item.name "failure"
            (reason +ₛ ": " +ₛ error_text e)
      | ok _ ↦ (do
        attempt (on_store (Store.set_desired_state request.now item.name "stopped"))
        record_system_audit request.now "policy.stop" item.name "success" reason)
    ]

  unfoldable pub enforce_reason :
      Request → ManagedContainer → Option String → Exec (System rt) (Unit {0})
  unfolding stop_for
  enforce_reason request item none = pure tt
  enforce_reason request item (some reason) = stop_for request item reason

  unfoldable pub enforce_quota : Request → ManagedContainer → Exec (System rt) (Unit {0})
  unfolding enforce_reason
  enforce_quota request item = do
    counters ← attempt (on_runtime (stats rt item.name))
    elim counters [
      | err e ↦ pure tt
      | ok s ↦ enforce_reason request item (quota_reason (used_bytes s item) item)
    ]

  -- The body of the loop of enforcePolicyPass for one declared container.
  unfoldable pub enforce_item :
      TimeFormat → ℕ → Request → List Instance → ManagedContainer → Exec (System rt) (Unit {0})
  unfolding enforce_quota stop_for
  enforce_item time now request instances item =
      if leb_ℤ item.quota_bytes (pos 0) && item.expires_at =ₛ ""
      then pure tt
      else if not (is_running (last_named item.name instances))
      then pure tt
      else if is_expired time now item
      then stop_for request item "expired"
      else if ltb_ℤ (pos 0) item.quota_bytes
      then enforce_quota request item
      else pure tt

  unfoldable pub enforce_items :
      TimeFormat → ℕ → Request → List Instance → List ManagedContainer → Exec (System rt) (Unit {0})
  enforce_items time now request instances [] = pure tt
  enforce_items time now request instances (item ∷ items) = do
    enforce_item time now request instances item
    enforce_items time now request instances items

  -- enforcePolicyPass: an error of either list is logged and ends the pass.
  unfoldable pub enforce_policy_pass : TimeFormat → ℕ → Request → Exec (System rt) (Unit {0})
  enforce_policy_pass time now request = do
    items ← on_store Store.list_containers
    instances ← on_runtime (list rt)
    enforce_items time now request instances items
