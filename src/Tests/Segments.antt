-- ===== src/Tests/Segments.antt =====
-- pkg/buffermanager/wtinylfu.go.
use baobab.Prelude.{ℕ, ◌≡◌, refl, arith, true, false, some, none, List, [], ◌∷◌}
use baobab.Prelude.Run.{done}
use baobab.Helpers.Lsn.{failed}
use baobab.Buffer.Entry.{
  Entry, zeroed, window_segment, probation_segment, protected_segment, pinned, unref,
}
use baobab.Buffer.Entry.Pins.{PinsMatch}
use baobab.Buffer.Clock.{probe, sweep, evict_tries, evict_without_clearing}
use baobab.Buffer.Segments.{WTinyLfu, Outside, Pool, update_entry, drop_victim, evict_window}
use baobab.Buffer.Segments.Counted.{Counted}
use baobab.Buffer.Segments.Promotes.{Promotes, promote_to_protected-Counted}

abbrev on_trial : Entry
on_trial = record zeroed { key = 7; segtype = probation_segment }

abbrev protected : Entry
protected = record zeroed { key = 8; segtype = protected_segment }

-- One entry in each segment; the protected one is full.
abbrev full_pool : WTinyLfu
full_pool = record {
  c_buffer = record {
    head = 0;
    capacity = 3;
    b_pool = on_trial ∷ protected ∷ record zeroed { key = 9; segtype = window_segment } ∷ [];
    reserved_entry = none;
  };
  window_count = 1;
  probation_count = 1;
  protected_count = 1;
  window_capacity = 1;
  probation_capacity = 1;
  protected_capacity = 1;
}

no_pins : (e : Entry) → e.acc ≡ false → e.pin_count ≡ 0 → e.unpin_count ≡ 0 → PinsMatch e
no_pins e held pins unpins = record {
  undone = omega (arith, pins, unpins);
  held = λ h. ground (arith, h, held);
  free = λ h. omega (arith, pins, unpins);
}

full_pool-Counted : Counted full_pool
full_pool-Counted = record {
  clock = record { sized = refl; in_range = omega arith };
  pins = (
    no_pins on_trial refl refl refl,
    (
      no_pins protected refl refl refl,
      (no_pins (record zeroed { key = 9; segtype = window_segment }) refl refl refl, tt),
    ),
  );
  small = omega arith;
  window = refl;
  probation = refl;
  protected = refl;
  window_fits = omega arith;
  probation_fits = omega arith;
  protected_fits = omega arith;
}

promote_to_protected-Counted_example : Promotes full_pool 0
promote_to_protected-Counted_example =
    promote_to_protected-Counted full_pool 0 on_trial full_pool-Counted refl refl
      (omega arith, (omega arith, (omega arith, tt)))

abbrev outside : Outside (List ℕ)
outside = record {
  check_item_count = λ key. some key;
  write_page = λ written key. some (key ∷ written);
}

abbrev pool_of : WTinyLfu → Pool (List ℕ)
pool_of w = record { w = w; pgr = []; hashtable = λ k. none }

abbrev with_pool : List Entry → WTinyLfu
with_pool es = record full_pool { c_buffer = record full_pool.c_buffer { b_pool = es } }

abbrev held_window : Entry
held_window = record (pinned zeroed) { segtype = window_segment }

-- Probation has a victim and the window has none: the error leaves the victim marked for eviction,
-- so no later eviction takes it.
abbrev stays_marked : Entry
stays_marked = record on_trial {
  ref = true;
  marked_for_eviction = true;
  pin_count = 1;
  unpin_count = 1;
}

error_keeps_mark :
    evict_window outside (pool_of (with_pool (on_trial ∷ protected ∷ held_window ∷ [])))
    ≡ done (
      failed,
      pool_of (record full_pool {
        c_buffer = record full_pool.c_buffer {
          head = 1;
          b_pool = stays_marked ∷ protected ∷ held_window ∷ [];
        };
      }),
    )
unfolding evict_window evict_without_clearing evict_tries sweep probe drop_victim update_entry unref
error_keeps_mark = refl
