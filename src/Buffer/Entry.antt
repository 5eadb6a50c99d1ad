-- ===== src/Buffer/Entry.antt =====
-- pkg/buffermanager/clock.go and frame.go: one entry of the buffer pool. The page content and the
-- latches are left out.
pub mod Pins
use baobab.Prelude.{ℕ, ◌+◌, ◌-◌, ◌^◌, ◌%◌, leb, ◌==◌, not, if◌then◌else◌, Bool, true, false}
use baobab.Prelude.Run.{Run, done, panics}

pub data Segment : Type 0 where
  unassigned window_segment probation_segment protected_segment : Segment

abbrev pub seg_eq : Segment → Segment → Bool
seg_eq unassigned unassigned = true
seg_eq window_segment window_segment = true
seg_eq probation_segment probation_segment = true
seg_eq protected_segment protected_segment = true
seg_eq _ _ = false

-- `clockentry` with the fields of its frame that the entry's methods use. The pin counters are
-- uint64s.
pub record Entry : Type 0 where
  pub key : ℕ
  pub frame_dirty : Bool
  pub ref : Bool
  pub acc : Bool
  pub reserved : Bool
  pub is_occupied : Bool
  pub marked_for_eviction : Bool
  pub pin_count : ℕ
  pub unpin_count : ℕ
  pub segtype : Segment

-- Memory comes zeroed.
abbrev pub zeroed : Entry
zeroed = record {
  key = 0;
  frame_dirty = false;
  ref = false;
  acc = false;
  reserved = false;
  is_occupied = false;
  marked_for_eviction = false;
  pin_count = 0;
  unpin_count = 0;
  segtype = unassigned;
}

abbrev pub add_u64 : ℕ → ℕ → ℕ
add_u64 a b = (a + b) % 2 ^ 64

-- Sets both bits and counts a pin; the step that several methods share.
abbrev pub pinned : Entry → Entry
pinned e = record e { acc = true; ref = true; pin_count = add_u64 e.pin_count 1 }

unfoldable pub reference : Entry → Entry
reference e = pinned e

unfoldable pub ref_if_occupied : Entry → Entry × Bool
ref_if_occupied e =
    if not e.is_occupied
    then (e, false)
    else if e.marked_for_eviction
    then (e, false)
    else (pinned e, true)

unfoldable pub ref_if_not_referenced : Entry → Entry × Bool
ref_if_not_referenced e =
    if e.acc
    then (e, false)
    else if e.marked_for_eviction
    then (e, false)
    else if not e.is_occupied
    then (e, false)
    else (pinned e, true)

unfoldable pub unref : Entry → Run Entry
unref e =
    if leb e.pin_count e.unpin_count
    then panics
    else done (record e {
      unpin_count = add_u64 e.unpin_count 1;
      acc = if e.pin_count - e.unpin_count == 1 then false else e.acc;
    })

unfoldable pub update_segment : Entry → Segment → Entry
update_segment e seg = record e { segtype = seg }

unfoldable pub update_segment_cas : Entry → Segment → Segment → Entry × Bool
update_segment_cas e old seg =
    if not (seg_eq e.segtype old) then (e, false) else (record e { segtype = seg }, true)

unfoldable pub mark_for_eviction : Entry → Entry
mark_for_eviction e = record e { marked_for_eviction = true }

unfoldable pub unmark_for_eviction : Entry → Entry
unmark_for_eviction e = record e { marked_for_eviction = false }

unfoldable pub mark_occupied : Entry → Entry
mark_occupied e = record e { is_occupied = true }

unfoldable pub mark_vacant : Entry → Entry
mark_vacant e = record e { is_occupied = false }

unfoldable pub reset_entry : Entry → Entry
reset_entry e = record e {
  acc = false;
  ref = false;
  is_occupied = false;
  pin_count = 0;
  unpin_count = 0;
  segtype = unassigned;
}

-- `Clear` of the frame first, which zeroes its key and cleans it.
unfoldable pub clear_entry : Entry → Entry
unfolding reset_entry
clear_entry e = reset_entry (record e { key = 0; frame_dirty = false })
