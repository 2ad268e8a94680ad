-- ===== src/Services/Subscription/Sampling/Samples.antt =====
-- What a sample does to the queue of a monitored item of subscription.c.
use micro_opcua.Base.{ℕ, ◌≡◌, Bool, false, not, ◌&&◌, ◌||◌, ◌==◌, if◌then◌else◌}
use micro_opcua.Encoding.Variant.{Variant}
use micro_opcua.Services.Subscription.{MonitoredItem}
use micro_opcua.Services.Subscription.Queue.Bounds.{IsRing}
use micro_opcua.Services.Subscription.Queue.Refine.{contents, push}
use micro_opcua.Services.Subscription.Sampling.{Doubles, change_reportable, sample_changed}

-- The queue is well formed, and an item with a value has reported it and has its pending reports in the queue.
abbrev pub IsSettled : MonitoredItem → Type 0
IsSettled item =
    IsRing item.ring
    × ((item.has_value && (not item.has_reported || (item.pending && item.ring.queue_count == 0)))
        ≡ false)

-- The sample is the first, or it has changed in the way that the item asks for, and by the deadband.
abbrev pub is_reported : Doubles → MonitoredItem → Variant → ℕ → Bool
is_reported fp item cur status =
    not item.has_value
    || (sample_changed fp item cur status && change_reportable fp item cur status)

module _ (fp : Doubles) where
  abbrev Pushed : MonitoredItem → Bool → MonitoredItem → Variant → ℕ → Type 0
  Pushed item reported after cur status =
      (contents after.ring ≡ (
        if reported
        then push item.ring.queue_size item.ring.discard_oldest (contents item.ring)
            (record { value = cur; status = status })
        else contents item.ring))
      × IsSettled after
