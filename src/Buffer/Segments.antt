-- ===== src/Buffer/Segments.antt =====
-- pkg/buffermanager/wtinylfu.go: the window, probation and protected segments over the clock, without
-- other threads. The frequency filter's estimate and the pager are arguments; the page content that
-- is written is left out. `IncrementItem`, which runs beside `Increment`, is left out.
pub mod Counted
pub mod Promotes
use baobab.Prelude.{
  ℕ, ◌+◌, ◌-◌, ◌^◌, ◌%◌, leb, ltb, ◌==◌, not, if◌then◌else◌, Bool, true, false, Option, none, some,
  set,
}
use baobab.Prelude.Run.{Run, done, panics, ◌>>=◌, index}
use baobab.Helpers.Lsn.{Checked, ok, failed}
use baobab.Buffer.Entry.{
  Segment, unassigned, window_segment, probation_segment, protected_segment, seg_eq, Entry, add_u64,
  unref, update_segment_cas, unmark_for_eviction, reset_entry,
}
use baobab.Buffer.Clock.{Clock, evict_without_clearing}

-- The counts and capacities are uint64s.
pub record WTinyLfu : Type 0 where
  pub c_buffer : Clock
  pub window_count : ℕ
  pub probation_count : ℕ
  pub protected_count : ℕ
  pub window_capacity : ℕ
  pub probation_capacity : ℕ
  pub protected_capacity : ℕ

abbrev pub sub_u64 : ℕ → ℕ → ℕ
sub_u64 a b = (a + 2 ^ 64 - b) % 2 ^ 64

-- `CheckItemCount` of the filter, and `WritePage`; `none` is an error.
pub record Outside (P : Type 0) : Type 0 where
  pub check_item_count : ℕ → Option ℕ
  pub write_page : P → ℕ → Option P

-- What an eviction changes: the segments, the pager, and the table from page ids to entries.
pub record Pool (P : Type 0) : Type 0 where
  pub w : WTinyLfu
  pub pgr : P
  pub hashtable : ℕ → Option ℕ

-- A change of the entry that a pointer names.
unfoldable pub update_entry : Clock → ℕ → (Entry → Run Entry) → Run Clock
update_entry clk i f =
    index clk.b_pool i λ e. f e >>= λ e'. done (record clk { b_pool = set clk.b_pool i e' })

abbrev pub move : Segment → Segment → Entry → Run Entry
move old seg e = done (update_segment_cas e old seg).0

-- `unMarkForEviction` and `unref`.
abbrev pub let_go : Entry → Run Entry
let_go e = unref (unmark_for_eviction e)

-- The error or its absence, and the state either way.
abbrev pub Outcome : Type 0 → Type 0
Outcome W = Run (Checked (Unit {0}) × W)

unfoldable pub promote_to_protected : WTinyLfu → ℕ → Outcome WTinyLfu
promote_to_protected w i = index w.c_buffer.b_pool i λ entry.
    if not (seg_eq entry.segtype probation_segment)
    then done (ok tt, w)
    else if ltb w.protected_count w.protected_capacity
    then (update_entry w.c_buffer i (move probation_segment protected_segment) >>= λ clk.
        let n = sub_u64 w.probation_count 1 in
        if ltb w.probation_capacity n
        then panics
        else done (
          ok tt,
          record w {
            c_buffer = clk;
            probation_count = n;
            protected_count = add_u64 w.protected_count 1;
          },
        ))
    else (evict_without_clearing protected_segment w.c_buffer >>= λ r. elim r.0 [
      | none ↦ done (failed, record w { c_buffer = r.1 })
      | some victim ↦
          if victim == i
          then panics
          else (update_entry r.1 victim (move protected_segment probation_segment) >>= λ c₁.
              update_entry c₁ i (move probation_segment protected_segment) >>= λ c₂.
              update_entry c₂ victim let_go >>= λ c₃. done (ok tt, record w { c_buffer = c₃ }))
    ])

-- `Increment`: the segment of an entry that was asked for again.
unfoldable pub increment : WTinyLfu → ℕ → Outcome WTinyLfu
increment w i = index w.c_buffer.b_pool i λ en.
    if seg_eq en.segtype probation_segment
    then promote_to_protected w i
    else if seg_eq en.segtype unassigned
    then (update_entry w.c_buffer i (move unassigned window_segment) >>= λ clk.
        done (ok tt, record w { c_buffer = clk }))
    else done (ok tt, w)

-- `resetEntry`, `Clear` of the frame and `unMarkForEviction`.
abbrev pub free : Entry → Run Entry
free e = done (unmark_for_eviction (record (reset_entry e) { key = 0; frame_dirty = false }))

-- The window has a victim and probation is not full: the victim moves there.
unfoldable pub demote : WTinyLfu → Outcome WTinyLfu
demote w = evict_without_clearing window_segment w.c_buffer >>= λ r. elim r.0 [
  | none ↦ done (failed, record w { c_buffer = r.1 })
  | some i ↦ update_entry r.1 i (move window_segment probation_segment) >>= λ c₁.
      let n = add_u64 w.probation_count 1 in
      if ltb w.probation_capacity n
      then panics
      else (update_entry c₁ i let_go >>= λ c₂. done (
        ok tt,
        record w { c_buffer = c₂; probation_count = n; window_count = sub_u64 w.window_count 1 },
      ))
]

module _ {P : Type 0} (o : Outside P) where
  -- A dirty victim is written before it goes.
  unfoldable pub flush_victim : P → Entry → Option P
  flush_victim pgr e = if e.frame_dirty then o.write_page pgr e.key else some pgr

  -- Two victims, of which `out` leaves the pool; `stay` is changed by `keep`.
  unfoldable pub throw_out : Pool P → ℕ → ℕ → (Entry → Run Entry) → Outcome (Pool P)
  throw_out p out stay keep = index p.w.c_buffer.b_pool out λ e. elim (flush_victim p.pgr e) [
    | none ↦ done (failed, p)
    | some pgr ↦ update_entry p.w.c_buffer out free >>= λ c₁. update_entry c₁ stay keep >>= λ c₂.
        done (
          ok tt,
          record {
            w = record p.w { c_buffer = c₂; window_count = sub_u64 p.w.window_count 1 };
            pgr = pgr;
            hashtable = λ k. if k == e.key then none else p.hashtable k;
          },
        )
  ]

  -- An error after a victim was found: it is unreferenced and stays marked.
  unfoldable pub drop_victim : Pool P → Option ℕ → Outcome (Pool P)
  drop_victim p none = done (failed, p)
  drop_victim p (some i) = update_entry p.w.c_buffer i unref >>= λ clk.
      done (failed, record p { w = record p.w { c_buffer = clk } })

  unfoldable pub drop_victims : Pool P → ℕ → ℕ → Outcome (Pool P)
  drop_victims p i j = drop_victim p (some i) >>= λ r. drop_victim r.1 (some j)

  -- The window's victim against probation's.
  unfoldable pub compare_victims : Pool P → ℕ → ℕ → Outcome (Pool P)
  compare_victims p wind main = index p.w.c_buffer.b_pool wind λ wind_entry.
      elim (o.check_item_count wind_entry.key) [
        | none ↦ drop_victims p wind main
        | some wind_count ↦ index p.w.c_buffer.b_pool main λ main_entry.
            elim (o.check_item_count main_entry.key) [
              | none ↦ drop_victims p wind main
              | some main_count ↦
                  if leb main_count wind_count
                  then throw_out p main wind
                      (λ e. let_go (update_segment_cas e window_segment probation_segment).0)
                  else throw_out p wind main let_go
            ]
      ]

  unfoldable pub evict_window : Pool P → Outcome (Pool P)
  evict_window p =
      if ltb p.w.probation_capacity p.w.probation_count
      then panics
      else if ltb p.w.window_count p.w.window_capacity
      then done (failed, p)
      else if ltb p.w.probation_count p.w.probation_capacity
      then (demote p.w >>= λ r. done (r.0, record p { w = r.1 }))
      else (evict_without_clearing window_segment p.w.c_buffer >>= λ wind.
          evict_without_clearing probation_segment wind.1 >>= λ main.
          let p' = record p { w = record p.w { c_buffer = main.1 } } in
          elim wind.0 [
            | none ↦ drop_victim p' main.0
            | some i ↦ elim main.0 [
              | none ↦ drop_victim p' (some i)
              | some j ↦ compare_victims p' i j
            ]
          ])

  -- A free entry for a new page, in the window.
  unfoldable pub get_free_frame : Pool P → Run (Checked ℕ × Pool P)
  get_free_frame p =
      if ltb p.w.window_capacity p.w.window_count
      then panics
      else ((if p.w.window_count == p.w.window_capacity then evict_window p else done (ok tt, p))
          >>= λ r. elim r.0 [
            | failed ↦ done (failed, r.1)
            | ok _ ↦ evict_without_clearing unassigned r.1.w.c_buffer >>= λ free_entry.
                elim free_entry.0 [
                  | none ↦
                      done (failed, record r.1 { w = record r.1.w { c_buffer = free_entry.1 } })
                  | some i ↦ update_entry free_entry.1 i (move unassigned window_segment) >>= λ clk.
                      done (
                        ok i,
                        record r.1 {
                          w = record r.1.w {
                            c_buffer = clk;
                            window_count = add_u64 r.1.w.window_count 1;
                          };
                        },
                      )
                ]
          ])
