-- ===== src/Buffer/Segments/Promotes.antt =====
-- `promoteToProtected` keeps the counts of the segments.
use baobab.Prelude.{
  ℕ, ◌+◌, ◌-◌, ◌^◌, ◌≤◌, ◌<◌, ◌≡◌, ◌≢◌, refl, sym, ap, subst, ◌∙◌, arith, ◌⊎◌, inl, inr, true,
  false, if◌then◌else◌, Option, none, some, List, length, set, get_elem?, length-set,
  get_elem?-set_self, get_elem?-set_ne, get_elem?_bound,
}
use native.Mathlib.Decide.{dec_lt}
use baobab.Prelude.Run.{Run, done, done-injective}
use baobab.Helpers.Lsn.{ok, failed}
use baobab.BPlusTree.Cache.Writes.{some-injective, none-not_some}
use baobab.Buffer.Entry.{
  Segment, window_segment, probation_segment, protected_segment, seg_eq, Entry, unref,
  update_segment_cas, unmark_for_eviction,
}
use baobab.Buffer.Entry.Pins.{PinsMatch}
use baobab.Buffer.Clock.{Clock, evict_without_clearing}
use baobab.Buffer.Clock.Victim.{IsClock, IsEligible, taken, LeftBehind, AllLeftBehind}
use baobab.Buffer.Clock.Finds.{evict-Found}
use baobab.Buffer.Clock.Outcome.{evict-Ends, Swept}
use baobab.Buffer.Segments.{WTinyLfu, update_entry, move, let_go, promote_to_protected}
use baobab.Buffer.Segments.Counted.{
  one_in, occupancy, occupancy-set, occupancy-left, occupancy-get_elem?, occupancy-le, All-set,
  All-get_elem?, All-left, left_at, left_from, Room, Counted,
}

update_entry_runs :
    (clk : Clock) (i : ℕ) (f : Entry → Run Entry) {e e' : Entry}
    → get_elem? clk.b_pool i ≡ some e
    → f e ≡ done e'
    → update_entry clk i f ≡ done (record clk { b_pool = set clk.b_pool i e' })
unfolding update_entry
update_entry_runs clk i f h r = ground (arith, h, r)

PinsMatch-left : (x y : Entry) → LeftBehind x y → PinsMatch x → PinsMatch y
PinsMatch-left x y (inl e) p = subst PinsMatch (sym e) p
PinsMatch-left x y (inr e) p =
    subst PinsMatch (sym e) (record { undone = p.undone; held = p.held; free = p.free })

true-not_false : ¬ (true ≡ false)
true-not_false h = cc

same_pins : (x y : Entry) → LeftBehind x y → x.pin_count ≡ y.pin_count
same_pins x y (inl e) = sym (ap (λ (z : Entry). z.pin_count) e)
same_pins x y (inr e) = sym (ap (λ (z : Entry). z.pin_count) e)

taken-PinsMatch :
    (e : Entry) (seg : Segment)
    → PinsMatch e
    → e.acc ≡ false
    → e.pin_count + 1 < 2 ^ 64
    → PinsMatch (record (taken e) { segtype = seg })
taken-PinsMatch e seg p held room =
    let same = p.free held in
    record {
      undone = omega (arith, same, room);
      held = λ h. omega (arith, same, room);
      free = λ h. absurd (true-not_false h);
    }

-- The victim that was taken, moved to probation and let go.
let_go-taken :
    (e : Entry) (seg : Segment)
    → PinsMatch e
    → e.acc ≡ false
    → e.pin_count + 1 < 2 ^ 64
    → (e' : Entry) × (let_go (record (taken e) { segtype = seg }) ≡ done e')
      × PinsMatch e'
      × (e'.segtype ≡ seg)
unfolding unref unmark_for_eviction
let_go-taken e seg p held room =
    let same = p.free held in
    let e' : Entry = record (taken e) {
      segtype = seg;
      marked_for_eviction = false;
      unpin_count = e.unpin_count + 1;
      acc = false;
    } in
    (
      e',
      ground (arith, same, room),
      record {
        undone = omega (arith, same, room);
        held = λ h. cc;
        free = λ h. omega (arith, same, room);
      },
      refl,
    )

-- How a promotion ends: with the entry protected, or with the error that there is no victim.
abbrev pub Promotes : WTinyLfu → ℕ → Type 0
Promotes w i =
    (w' : WTinyLfu) × Counted w'
    × (((promote_to_protected w i ≡ done (ok tt, w'))
          × ((e : Entry) × (get_elem? w'.c_buffer.b_pool i ≡ some e)
              × (e.segtype ≡ protected_segment)))
        ⊎ ((promote_to_protected w i ≡ done (failed, w'))
            × (w.protected_capacity ≤ w.protected_count)
            × ((j : ℕ) (e : Entry)
                → get_elem? w.c_buffer.b_pool j ≡ some e
                → ¬ IsEligible protected_segment e)))

module _ (w : WTinyLfu) (i : ℕ) (en : Entry) (c : Counted w)
    (read : get_elem? w.c_buffer.b_pool i ≡ some en)
    (on_trial : en.segtype ≡ probation_segment) where
  abbrev pool : List Entry
  pool = w.c_buffer.b_pool

  moved : Entry
  moved = record en { segtype = protected_segment }

  moved-PinsMatch : PinsMatch moved
  unfolding moved
  moved-PinsMatch =
      let p = All-get_elem? PinsMatch pool i c.pins read in
      record { undone = p.undone; held = p.held; free = p.free }

  was : (seg : Segment) → one_in seg en ≡ (if seg_eq probation_segment seg then 1 else 0)
  was seg = ap {B = ℕ} (λ x. if seg_eq x seg then 1 else 0) on_trial

  some_on_trial : 0 < w.probation_count
  some_on_trial =
      omega (
        arith,
        c.probation,
        occupancy-get_elem? probation_segment pool i read,
        was probation_segment,
      )

  -- There is room in the protected segment.
  promotes : w.protected_count < w.protected_capacity → Promotes w i
  unfolding promote_to_protected moved update_segment_cas
  promotes room =
      let clk : Clock = record w.c_buffer { b_pool = set pool i moved } in
      let updates : update_entry w.c_buffer i (move probation_segment protected_segment)
          ≡ done clk =
        update_entry_runs w.c_buffer i (move probation_segment protected_segment) read
          (ground (arith, on_trial)) in
      let at : (seg : Segment)
          → occupancy seg (set pool i moved) + one_in seg en
            ≡ occupancy seg pool + one_in seg moved =
        λ seg. occupancy-set seg pool i moved read in
      let few : (seg : Segment) → occupancy seg pool ≤ length pool = λ seg. occupancy-le seg pool in
      let bound : length pool + 1 < 2 ^ 64 = omega (arith, c.clock.sized, c.small) in
      let w' : WTinyLfu = record w {
        c_buffer = clk;
        probation_count = w.probation_count - 1;
        protected_count = w.protected_count + 1;
      } in
      (
        w',
        record {
          clock = record {
            sized = omega (arith, length-set pool i moved, c.clock.sized);
            in_range = c.clock.in_range;
          };
          pins = All-set PinsMatch pool i moved c.pins moved-PinsMatch;
          small = c.small;
          window = omega (arith, c.window, at window_segment, was window_segment);
          probation = omega (arith, c.probation, at probation_segment, was probation_segment);
          protected = omega (arith, c.protected, at protected_segment, was protected_segment);
          window_fits = c.window_fits;
          probation_fits = omega (arith, c.probation_fits);
          protected_fits = omega (arith, room);
        },
        inl (
          ground (
            arith,
            read,
            on_trial,
            room,
            updates,
            some_on_trial,
            c.probation_fits,
            bound,
            few probation_segment,
            few protected_segment,
            c.probation,
            c.protected,
          ),
          (moved, get_elem?-set_self pool i moved (get_elem?_bound pool i read), refl),
        ),
      )

  -- No victim: the hand has passed by, and nothing else has changed.
  fails :
      (clk : Clock)
      → w.protected_capacity ≤ w.protected_count
      → evict_without_clearing protected_segment w.c_buffer ≡ done (none, clk)
      → IsClock clk
      → clk.capacity ≡ w.c_buffer.capacity
      → AllLeftBehind pool clk.b_pool
      → Promotes w i
  unfolding promote_to_protected
  fails clk full evicts is_clock cap left = (
    record w { c_buffer = clk },
    record {
      clock = is_clock;
      pins = All-left PinsMatch PinsMatch-left pool clk.b_pool left c.pins;
      small = omega (arith, cap, c.small);
      window = omega (arith, c.window, occupancy-left window_segment pool clk.b_pool left);
      probation = omega (arith, c.probation, occupancy-left probation_segment pool clk.b_pool left);
      protected = omega (arith, c.protected, occupancy-left protected_segment pool clk.b_pool left);
      window_fits = c.window_fits;
      probation_fits = c.probation_fits;
      protected_fits = c.protected_fits;
    },
    inr (
      ground (arith, read, on_trial, full, evicts),
      full,
      λ j e at_j eligible.
          let (k, clk', found) =
            evict-Found protected_segment w.c_buffer j e c.clock at_j eligible in
          none-not_some
            (ap {A = Option ℕ × Clock} (λ o. o.0) (done-injective (sym evicts ∙ found))),
    ),
  )

  -- The victim and the entry change places.
  module _ (clk : Clock) (full : w.protected_capacity ≤ w.protected_count) (j : ℕ)
      (mid : List Entry) (v : Entry) (left : AllLeftBehind pool mid)
      (at_j : get_elem? mid j ≡ some v) (eligible : IsEligible protected_segment v)
      (evicts : evict_without_clearing protected_segment w.c_buffer
        ≡ done (some j, record clk { b_pool = set mid j (taken v) }))
      (is_clock : IsClock (record clk { b_pool = set mid j (taken v) }))
      (cap : clk.capacity ≡ w.c_buffer.capacity) (room : Room pool) where
    exchanges : Promotes w i
    unfolding promote_to_protected update_segment_cas
    exchanges =
        let (en', at_i, behind) = left_at pool mid i left read in
        let still : en'.segtype ≡ probation_segment = ground (arith, behind, on_trial) in
        let apart : j ≢ i = λ e.
          let same : v ≡ en' = some-injective (sym at_j ∙ (ap (get_elem? mid) e ∙ at_i)) in
          let clash : protected_segment ≡ probation_segment =
            sym eligible.in_segment ∙ (ap (λ (x : Entry). x.segtype) same ∙ still) in
          cc in
        let (v₀, at_j₀, behind_v) = left_from pool mid j left at_j in
        let room_v : v.pin_count + 1 < 2 ^ 64 =
          subst (λ n. n + 1 < 2 ^ 64) (same_pins v₀ v behind_v)
            (All-get_elem? (λ (e : Entry). e.pin_count + 1 < 2 ^ 64) pool j room at_j₀) in
        let pins_mid = All-left PinsMatch PinsMatch-left pool mid left c.pins in
        let pins_v = All-get_elem? PinsMatch mid j pins_mid at_j in
        let pins_en = All-get_elem? PinsMatch mid i pins_mid at_i in
        let (y₂, lets, pins_y₂, seg_y₂) =
          let_go-taken v probation_segment pins_v eligible.not_held room_v in
        let y₁ : Entry = record (taken v) { segtype = probation_segment } in
        let m' : Entry = record en' { segtype = protected_segment } in
        let pins_t = taken-PinsMatch v probation_segment pins_v eligible.not_held room_v in
        let ys = set mid j (taken v) in
        let p₁ = set ys j y₁ in
        let p₂ = set p₁ i m' in
        let p₃ = set p₂ j y₂ in
        let c₀ : Clock = record clk { b_pool = ys } in
        let in_mid = get_elem?_bound mid j at_j in
        let r₀ : get_elem? ys j ≡ some (taken v) = get_elem?-set_self mid j (taken v) in_mid in
        let r₁ : get_elem? p₁ i ≡ some en' =
          get_elem?-set_ne ys y₁ apart ∙ (get_elem?-set_ne mid (taken v) apart ∙ at_i) in
        let r₂ : get_elem? p₂ j ≡ some y₁ =
          get_elem?-set_ne p₁ m' (λ e. apart (sym e))
          ∙ get_elem?-set_self ys j y₁ (get_elem?_bound ys j r₀) in
        let u₁ : update_entry c₀ j (move protected_segment probation_segment)
            ≡ done (record c₀ { b_pool = p₁ }) =
          update_entry_runs c₀ j (move protected_segment probation_segment) r₀
            (ground (arith, eligible.in_segment)) in
        let u₂ : update_entry (record c₀ { b_pool = p₁ }) i
              (move probation_segment protected_segment)
            ≡ done (record c₀ { b_pool = p₂ }) =
          update_entry_runs (record c₀ { b_pool = p₁ }) i (move probation_segment protected_segment)
            r₁ (ground (arith, still)) in
        let u₃ : update_entry (record c₀ { b_pool = p₂ }) j let_go
            ≡ done (record c₀ { b_pool = p₃ }) =
          update_entry_runs (record c₀ { b_pool = p₂ }) j let_go r₂ lets in
        let same_occupancy : (seg : Segment) → occupancy seg p₃ ≡ occupancy seg pool = λ seg.
          omega (
            arith,
            occupancy-set seg p₂ j y₂ r₂,
            occupancy-set seg p₁ i m' r₁,
            occupancy-set seg ys j y₁ r₀,
            occupancy-set seg mid j (taken v) at_j,
            occupancy-left seg pool mid left,
            ap {B = ℕ} (λ x. if seg_eq x seg then 1 else 0) still,
            ap {B = ℕ} (λ x. if seg_eq x seg then 1 else 0) eligible.in_segment,
            ap {B = ℕ} (λ x. if seg_eq x seg then 1 else 0) seg_y₂,
          ) in
        (
          record w { c_buffer = record c₀ { b_pool = p₃ } },
          record {
            clock = record {
              sized = omega (
                arith,
                is_clock.sized,
                length-set p₂ j y₂,
                length-set p₁ i m',
                length-set ys j y₁,
              );
              in_range = is_clock.in_range;
            };
            pins =
                All-set PinsMatch p₂ j y₂
                  (All-set PinsMatch p₁ i m'
                    (All-set PinsMatch ys j y₁
                      (All-set PinsMatch mid j (taken v) pins_mid
                        (record { undone = pins_t.undone; held = pins_t.held; free = pins_t.free }))
                      pins_t)
                    (record { undone = pins_en.undone; held = pins_en.held; free = pins_en.free }))
                  pins_y₂;
            small = omega (arith, cap, c.small);
            window = c.window ∙ sym (same_occupancy window_segment);
            probation = c.probation ∙ sym (same_occupancy probation_segment);
            protected = c.protected ∙ sym (same_occupancy protected_segment);
            window_fits = c.window_fits;
            probation_fits = c.probation_fits;
            protected_fits = c.protected_fits;
          },
          inl (
            ground (arith, read, on_trial, full, evicts, apart, u₁, u₂, u₃),
            (
              m',
              get_elem?-set_ne p₂ y₂ apart ∙ get_elem?-set_self p₁ i m' (get_elem?_bound p₁ i r₁),
              refl,
            ),
          ),
        )

evicted :
    (w : WTinyLfu) (i : ℕ) (en : Entry) (c : Counted w)
    → get_elem? w.c_buffer.b_pool i ≡ some en
    → en.segtype ≡ probation_segment
    → Room w.c_buffer.b_pool
    → w.protected_capacity ≤ w.protected_count
    → (clk : Clock) → clk.capacity ≡ w.c_buffer.capacity
    → (o : Option ℕ) → Swept protected_segment w.c_buffer.b_pool o clk.b_pool
    → evict_without_clearing protected_segment w.c_buffer ≡ done (o, clk)
    → IsClock clk
    → Promotes w i
evicted w i en c read on_trial room full clk cap none swept evicts is_clock =
    fails w i en c read on_trial clk full evicts is_clock cap swept
evicted w i en c read on_trial room full clk cap (some j) swept evicts is_clock =
    let (mid, v, left, at_j, eligible, ys) = swept in
    let same : clk ≡ record clk { b_pool = set mid j (taken v) } =
      ap (λ (l : List Entry). record clk { b_pool = l }) ys in
    exchanges w i en c read on_trial clk full j mid v left at_j eligible
      (evicts ∙ ap (λ (x : Clock). done (some j, x)) same) (subst IsClock same is_clock) cap room

-- Promoting an entry of probation in a pool whose counts are right, where every entry can count one
-- more pin, never panics. The counts stay the numbers of the segments' entries and within their
-- capacities. Either the entry is protected afterwards, or there is the error, and then the protected
-- segment is full and none of its entries can be evicted.
pub promote_to_protected-Counted :
    (w : WTinyLfu) (i : ℕ) (en : Entry)
    → Counted w
    → get_elem? w.c_buffer.b_pool i ≡ some en
    → en.segtype ≡ probation_segment
    → Room w.c_buffer.b_pool
    → Promotes w i
promote_to_protected-Counted w i en c read on_trial room =
    elim (dec_lt w.protected_count w.protected_capacity) [
      | yes p ↦ promotes w i en c read on_trial p
      | no p ↦
          let full : w.protected_capacity ≤ w.protected_count = omega (arith, p) in
          let (o, clk, evicts, is_clock, cap, swept) =
            evict-Ends protected_segment w.c_buffer c.clock in
          evicted w i en c read on_trial room full clk cap o swept evicts is_clock
    ]
