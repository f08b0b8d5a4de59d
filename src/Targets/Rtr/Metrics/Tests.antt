-- ===== src/Targets/Rtr/Metrics/Tests.antt =====
-- Runs of the metrics of src/targets/rtr.rs.
use rtrtr.Base.{ℕ, ◌≡◌, refl, [], ◌∷◌, none, some, true}
use rtrtr.Order.{nat_order}
use rtrtr.Targets.Rtr.Metrics.{
  ListenerMetrics, new, get_client, update, stream_new, poll_read, stream_drop, serial, update_now,
  default,
}
use rtrtr.Targets.Rtr.Metrics.Counts.{Reach-Tallies}
use rtrtr.Targets.Rtr.Metrics.Opened.{client_of, Reach, start, opened, read, dropped, Tallies}

-- Two streams from one address and one from another; the first reads and is dropped.
abbrev metrics : ListenerMetrics ℕ
metrics = stream_drop (client_of 7) (
    poll_read (client_of 7) 20 (some 120)
      (stream_new (stream_new (stream_new (new true) 7).0 3).0 7).0)

metrics-Reach : Reach metrics (7 ∷ 3 ∷ [])
metrics-Reach =
    dropped 7 (7 ∷ 3 ∷ []) [] refl (read 7 20 (some 120) refl (opened 7 (opened 3 (opened 7 start))))

Reach-Tallies_example : Tallies metrics (7 ∷ 3 ∷ [])
Reach-Tallies_example = Reach-Tallies metrics-Reach

counters : metrics.global.open_count ≡ 2
unfolding stream_new get_client update poll_read
counters = refl

serials : (serial default ≡ none) × (serial (update_now default 12 true 5) ≡ some 12)
unfolding serial update_now
serials = (refl, refl)
