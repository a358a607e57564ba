-- ===== src/Event/Mask.antt =====
-- The mask of a listener when callbacks are set and cleared.
use rmw_fastrtps.Prelude.{◌≡◌, ◌≢◌, Bool, true, false, Option, none, some, arith}
use rmw_fastrtps.Event.{
  EventType, event_index, StatusBit, bit_index, rmw_event_to_dds_statusmask, Callback, Notifier,
  set_callback,
}

abbrev pub is_set : Option Callback → Bool
is_set none = false
is_set (some c) = true

-- Whatever callback is set or cleared, the status of the matched endpoints stays enabled, and that of
-- another event with a bit of its own is enabled afterwards exactly if a callback was set.
pub set_callback_mask :
    (m e : EventType) (kept bit : StatusBit) (c : Option Callback) (n : Notifier)
    → rmw_event_to_dds_statusmask e ≡ some bit
    → event_index m ≢ event_index e
    → bit_index kept ≢ bit_index bit
    → n.status_mask kept ≡ true
    → ((set_callback m e c n).status_mask kept ≡ true)
      × ((set_callback m e c n).status_mask bit ≡ is_set c)
unfolding set_callback
set_callback_mask m e kept bit (some c) n h other apart on = rw h (ground (arith, on))
set_callback_mask m e kept bit none n h other apart on = rw h (ground (arith, on, other, apart))
