-- ===== src/App/History/Enforcing.antt =====
-- policy.go: policies and their enforcement, as histories of calls of the store's methods.
use natbox.Prelude.{
  ℕ, ℤ, String, Option, none, some, List, [], ◌∷◌, ◌=ₛ◌, ◌&&◌, not, ltb_ℤ, leb_ℤ, pos, ok, reject,
  trim_space,
}
use natbox.Incus.Runner.{Runtime, Instance}
use natbox.Incus.Query.{list, stats}
use natbox.Incus.Lifecycle
use natbox.Store
use natbox.Store.{ManagedContainer}
use natbox.Store.Rows.{find_row}
use natbox.Store.History.{set_desired_state-Reaches, update_policy-Reaches}
use natbox.App.Base.{Request}
use natbox.App.Policy
use natbox.App.Policy.{TimeFormat}
use natbox.App.History.{
  IsHistory, then-IsHistory, attempt-IsHistory, cases-IsHistory, if-IsHistory, reject-IsHistory,
  runtime-IsHistory, store-IsHistory, pure-IsHistory, record_system_audit-IsHistory,
}
use natbox.App.History.Acting.{list-IsHistory}

module _ {rt : Runtime} where
  viewed-IsHistory :
      (name : String) (item : Option ManagedContainer)
      → IsHistory {rt = rt} (Policy.viewed name item)
  unfolding Policy.viewed
  viewed-IsHistory name none = pure-IsHistory _
  viewed-IsHistory name (some item) =
      attempt-IsHistory _ _ (runtime-IsHistory (stats rt name)) λ counters. pure-IsHistory _

  pub policy-IsHistory : (name : String) → IsHistory {rt = rt} (Policy.policy name)
  unfolding Policy.policy
  policy-IsHistory name =
      then-IsHistory _ _ list-IsHistory λ items. viewed-IsHistory name (find_row name items)

  pub update_policy-IsHistory :
      (time : TimeFormat) (request : Request) (name : String) (quota : ℤ) (expires : String)
      → IsHistory {rt = rt} (Policy.update_policy time request name quota expires)
  unfolding Policy.update_policy
  update_policy-IsHistory time request name quota expires =
      then-IsHistory (reject (ltb_ℤ quota (pos 0)) "quotaBytes must be zero or positive") _
        (reject-IsHistory _ _)
        λ _.
          then-IsHistory _ _ (pure-IsHistory (Policy.normalised time (trim_space expires)))
            λ expires_at. attempt-IsHistory _ _ (runtime-IsHistory (stats rt name)) λ measured.
              then-IsHistory _ _ (pure-IsHistory (Policy.counters_read measured)) λ counters.
                then-IsHistory _ _
                  (store-IsHistory
                    (Store.update_policy request.now name quota counters.rx_bytes counters.tx_bytes
                      request.now expires_at)
                    (update_policy-Reaches request.now name quota counters.rx_bytes
                      counters.tx_bytes request.now expires_at))
                  λ _. policy-IsHistory name

  stop_for-IsHistory :
      (request : Request) (item : ManagedContainer) (reason : String)
      → IsHistory {rt = rt} (Policy.stop_for request item reason)
  unfolding Policy.stop_for
  stop_for-IsHistory request item reason =
      attempt-IsHistory _ _ (runtime-IsHistory (Lifecycle.stop rt item.name)) (
        cases-IsHistory _
          (λ _.
            attempt-IsHistory _ _
              (store-IsHistory (Store.set_desired_state request.now item.name "stopped")
                (set_desired_state-Reaches request.now item.name "stopped"))
              λ _. record_system_audit-IsHistory _ _ _ _ _)
          λ e. record_system_audit-IsHistory _ _ _ _ _)

  enforce_reason-IsHistory :
      (request : Request) (item : ManagedContainer) (reason : Option String)
      → IsHistory {rt = rt} (Policy.enforce_reason request item reason)
  unfolding Policy.enforce_reason
  enforce_reason-IsHistory request item none = pure-IsHistory _
  enforce_reason-IsHistory request item (some reason) = stop_for-IsHistory request item reason

  enforce_quota-IsHistory :
      (request : Request) (item : ManagedContainer)
      → IsHistory {rt = rt} (Policy.enforce_quota request item)
  unfolding Policy.enforce_quota
  enforce_quota-IsHistory request item =
      attempt-IsHistory _ _ (runtime-IsHistory (stats rt item.name)) (
        cases-IsHistory _
          (λ s.
            enforce_reason-IsHistory request item
              (Policy.quota_reason (Policy.used_bytes s item) item))
          λ e. pure-IsHistory _)

  module _ (time : TimeFormat) (now : ℕ) (request : Request) (instances : List Instance) where
    enforce_item-IsHistory :
        (item : ManagedContainer)
        → IsHistory {rt = rt} (Policy.enforce_item time now request instances item)
    unfolding Policy.enforce_item
    enforce_item-IsHistory item =
        if-IsHistory (leb_ℤ item.quota_bytes (pos 0) && item.expires_at =ₛ "") _ _
          (pure-IsHistory (ok tt))
          (if-IsHistory (not (Policy.is_running (Policy.last_named item.name instances))) _ _
            (pure-IsHistory (ok tt))
            (if-IsHistory (Policy.is_expired time now item) _ _
              (stop_for-IsHistory request item "expired")
              (if-IsHistory (ltb_ℤ (pos 0) item.quota_bytes) _ _
                (enforce_quota-IsHistory request item) (pure-IsHistory (ok tt)))))

    enforce_items-IsHistory :
        (items : List ManagedContainer)
        → IsHistory {rt = rt} (Policy.enforce_items time now request instances items)
    unfolding Policy.enforce_items
    enforce_items-IsHistory [] = pure-IsHistory _
    enforce_items-IsHistory (item ∷ items) =
        then-IsHistory _ _ (enforce_item-IsHistory item) λ _. enforce_items-IsHistory items

  pub enforce_policy_pass-IsHistory :
      (time : TimeFormat) (now : ℕ) (request : Request)
      → IsHistory {rt = rt} (Policy.enforce_policy_pass time now request)
  unfolding Policy.enforce_policy_pass
  enforce_policy_pass-IsHistory time now request = then-IsHistory _ _ list-IsHistory λ items.
      then-IsHistory _ _ (runtime-IsHistory (list rt))
        λ instances. enforce_items-IsHistory time now request instances items
