-- ===== src/App/Policy/Counting.antt =====
-- policy.go: the counters behind a quota.
use natbox.Prelude.{
  ℕ, ◌+◌, ◌-◌, ◌^◌, ◌<◌, ◌≡◌, refl, pos, ◌+ℤ◌, ◌-ℤ◌, wrap64, arith, ok, ltb_ℤ, if◌then◌else◌,
}
use natbox.Incus.Query.{NetworkStats}
use natbox.Store.{ManagedContainer}
use natbox.App.Policy.{counter_delta, used_bytes, view_of}

-- The traffic since a baseline; none where the counter has been reset below it.
pub counter_delta-pos :
    (current baseline : ℕ)
    → current < 2 ^ 63
    → counter_delta (pos current) (pos baseline) ≡ pos (current - baseline)
unfolding counter_delta ◌-ℤ◌ wrap64
counter_delta-pos current baseline h = ground arith

sum64 : (a b : ℕ) → a + b < 2 ^ 63 → wrap64 (pos a +ℤ pos b) ≡ pos (a + b)
unfolding ◌+ℤ◌ wrap64
sum64 a b h = ground arith

-- What view_of leaves of a quota.
left_over :
    (quota used : ℕ)
    → quota < 2 ^ 63
    → (if ltb_ℤ (pos used) (pos quota) then wrap64 (pos quota -ℤ pos used) else pos 0)
      ≡ pos (quota - used)
unfolding ◌-ℤ◌ wrap64
left_over quota used h = ground arith

pub used_bytes-exact :
    (item : ManagedContainer) (s : NetworkStats) (rx tx rx0 tx0 : ℕ)
    → s.rx_bytes ≡ pos rx
    → s.tx_bytes ≡ pos tx
    → item.quota_rx_baseline ≡ pos rx0
    → item.quota_tx_baseline ≡ pos tx0
    → rx + tx < 2 ^ 63
    → used_bytes s item ≡ pos ((rx - rx0) + (tx - tx0))
unfolding used_bytes
used_bytes-exact item s rx tx rx0 tx0 erx etx erx0 etx0 fits =
    rw
      (
        erx,
        etx,
        erx0,
        etx0,
        counter_delta-pos rx rx0 (omega arith),
        counter_delta-pos tx tx0 (omega arith),
      )
      (sum64 (rx - rx0) (tx - tx0) (omega arith))

-- Where counters, baselines and quota are not negative, and the sum of the counters and the quota fit int64, the used bytes are exactly the traffic since the two
-- baselines, and what remains is the rest of the quota.
pub view_of-exact :
    (item : ManagedContainer) (s : NetworkStats) (rx tx rx0 tx0 quota : ℕ)
    → s.rx_bytes ≡ pos rx
    → s.tx_bytes ≡ pos tx
    → item.quota_rx_baseline ≡ pos rx0
    → item.quota_tx_baseline ≡ pos tx0
    → item.quota_bytes ≡ pos quota
    → rx + tx < 2 ^ 63
    → quota < 2 ^ 63
    → ((view_of item (ok s)).used_bytes ≡ pos ((rx - rx0) + (tx - tx0)))
      × ((view_of item (ok s)).remaining_bytes ≡ pos (quota - ((rx - rx0) + (tx - tx0))))
unfolding view_of
view_of-exact item s rx tx rx0 tx0 quota erx etx erx0 etx0 eq fits qfits =
    rw (used_bytes-exact item s rx tx rx0 tx0 erx etx erx0 etx0 fits, eq)
      (refl, left_over quota ((rx - rx0) + (tx - tx0)) qfits)
