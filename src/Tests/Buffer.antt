-- ===== src/Tests/Buffer.antt =====
-- pkg/buffermanager.
use baobab.Prelude.{◌<◌, ◌≡◌, refl, arith, ◌↔◌, true, [], ◌∷◌, none}
use baobab.Buffer.Entry.{Entry, zeroed, window_segment, reference, unref}
use baobab.Buffer.Entry.Pins.{references, unrefs, call, calls, pins_held, acc-pins}
use baobab.Buffer.Clock.{Clock, evict_without_clearing}
use baobab.Buffer.Clock.Victim.{IsClock}
use baobab.Buffer.Clock.Outcome.{Ends, evict-Ends}
use baobab.Buffer.Clock.Finds.{Found, evict-Found}

abbrev one_pin : Entry
one_pin = record zeroed { acc = true; ref = true; pin_count = 2; unpin_count = 1 }

acc-pins_example : (one_pin.acc ≡ true) ↔ (0 < pins_held one_pin)
unfolding calls call reference unref
acc-pins_example = acc-pins (references ∷ references ∷ unrefs ∷ []) one_pin (omega arith) refl

abbrev no_pin : Entry
no_pin = record zeroed { ref = true; pin_count = 1; unpin_count = 1 }

-- The hand stands on a pinned entry; the next entries of the segment still have their reference bit.
abbrev window : Entry
window = record zeroed { ref = true; segtype = window_segment }

abbrev clock : Clock
clock = record {
  head = 0;
  capacity = 3;
  b_pool = one_pin ∷ window ∷ window ∷ [];
  reserved_entry = none;
}

clock-IsClock : IsClock clock
clock-IsClock = record { sized = refl; in_range = omega arith }

evict-Ends_example : Ends window_segment clock (evict_without_clearing window_segment clock)
evict-Ends_example = evict-Ends window_segment clock clock-IsClock

evict-Found_example : Found (evict_without_clearing window_segment clock)
evict-Found_example =
    evict-Found window_segment clock 2 window clock-IsClock refl
      (record { not_reserved = refl; not_held = refl; not_marked = refl; in_segment = refl })
