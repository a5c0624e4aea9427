-- ===== src/App/Policy/Enforcement.antt =====
-- policy.go: the body of the loop of enforcePolicyPass.
use natbox.Prelude.{
  ℕ, ◌≡◌, refl, true, ◌&&◌, List, pos, ltb_ℤ, leb_ℤ, Result, ok, ◌=ₛ◌, attempt, ◌⊎◌, inl, inr,
  Bool-cases, Result-cases,
}
use natbox.Incus.Runner.{Runtime, Instance}
use natbox.Incus.Query.{NetworkStats, stats}
use natbox.Store.{ManagedContainer}
use natbox.App.Base.{Request, System}
use natbox.App.Policy.{
  TimeFormat, is_running, last_named, is_expired, used_bytes, quota_reason, enforce_quota,
  enforce_item,
}

-- What the pass stops a container for.
abbrev pub MustStop :
    TimeFormat → ℕ → List Instance → Result NetworkStats → ManagedContainer → Type 0
MustStop time now instances counters item =
    (is_running (last_named item.name instances) ≡ true)
    × ((is_expired time now item ≡ true)
        ⊎ ((s : NetworkStats) × (counters ≡ ok s)
            × (ltb_ℤ (pos 0) item.quota_bytes ≡ true)
            × (leb_ℤ item.quota_bytes (used_bytes s item) ≡ true)))

module _ {rt : Runtime} where
  quota_unchanged :
      (request : Request) (item : ManagedContainer) (s : System rt)
      → ((enforce_quota request item s).1.db ≡ s.db)
        ⊎ ((c : NetworkStats) × ((stats rt item.name s.world).0 ≡ ok c)
            × (leb_ℤ item.quota_bytes (used_bytes c item) ≡ true))
  unfolding enforce_quota quota_reason attempt
  quota_unchanged request item s = elim (Result-cases (stats rt item.name s.world).0) [
    | inr (e, unread) ↦ inl (rw unread refl)
    | inl (c, read) ↦ elim (Bool-cases (leb_ℤ item.quota_bytes (used_bytes c item))) [
      | inl reached ↦ inr (c, read, reached)
      | inr below ↦ inl (rw (read, below) refl)
    ]
  ]

  -- The pass changes the database only for a container that runs and is past its expiry, or whose
  -- counters could be read and reach a quota that is set.
  pub enforce_item-MustStop :
      (time : TimeFormat) (now : ℕ) (request : Request) (instances : List Instance)
      (item : ManagedContainer) (s : System rt)
      → ((enforce_item time now request instances item s).1.db ≡ s.db)
        ⊎ MustStop time now instances (stats rt item.name s.world).0 item
  unfolding enforce_item
  enforce_item-MustStop time now request instances item s =
      elim (Bool-cases (leb_ℤ item.quota_bytes (pos 0) && item.expires_at =ₛ "")) [
        | inl unlimited ↦ inl (rw unlimited refl)
        | inr limited ↦ elim (Bool-cases (is_running (last_named item.name instances))) [
          | inr halted ↦ inl (rw (limited, halted) refl)
          | inl running ↦ elim (Bool-cases (is_expired time now item)) [
            | inl expired ↦ inr (running, inl expired)
            | inr fresh ↦ elim (Bool-cases (ltb_ℤ (pos 0) item.quota_bytes)) [
              | inr none_set ↦ inl (rw (limited, running, fresh, none_set) refl)
              | inl set ↦ elim (quota_unchanged request item s) [
                | inl same ↦ inl (rw (limited, running, fresh, set) same)
                | inr (c, read, reached) ↦ inr (running, inr (c, read, set, reached))
              ]
            ]
          ]
        ]
      ]
