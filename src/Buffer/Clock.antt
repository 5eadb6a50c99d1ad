-- ===== src/Buffer/Clock.antt =====
-- pkg/buffermanager/clock.go: the circular buffer and `EvictWithoutClearing`. An entry is named by
-- its index. The model runs one eviction without other threads; between the two tries of the source
-- other threads may let entries go.
pub mod Victim
pub mod Outcome
pub mod Finds
use baobab.Prelude.{
  ℕ, zero, suc, ◌+◌, ◌*◌, ◌%◌, not, ltb, if◌then◌else◌, Bool, true, false, Option, none, some, List,
  [], replicate, set,
}
use baobab.Prelude.Run.{Run, done, index, ◌>>=◌}
use baobab.Buffer.Entry.{Segment, unassigned, seg_eq, Entry, zeroed, pinned}

pub record Clock : Type 0 where
  pub head : ℕ
  pub capacity : ℕ
  pub b_pool : List Entry
  pub reserved_entry : Option ℕ

abbrev pub max_loop : ℕ
max_loop = 2

abbrev pub max_retries : ℕ
max_retries = 2

-- What the hand does with the entry it points to: it leaves the entry behind, or takes it.
pub data Probe : Type 0 where
  skip : Entry → Probe
  pick : Entry → Probe

unfoldable pub probe : Segment → Entry → Probe
probe seg e =
    if e.reserved
    then skip e
    else if e.acc
    then skip e
    else if e.marked_for_eviction
    then skip e
    else if not (seg_eq e.segtype seg)
    then skip e
    else if e.ref
    then skip (record e { ref = false })
    else pick (record (pinned e) { marked_for_eviction = true })

-- The entry under the hand gets a new value and the hand moves on.
abbrev pub advance : Clock → Entry → Clock
advance clk e = record clk {
  b_pool = set clk.b_pool clk.head e;
  head = (clk.head + 1) % clk.capacity;
}

-- The loop over at most `n` entries.
unfoldable pub sweep : ℕ → Segment → Clock → Run (Option ℕ × Clock)
unfolding probe
sweep zero seg clk = done (none, clk)
sweep (suc n) seg clk = index clk.b_pool clk.head λ e. elim (probe seg e) [
  | skip e' ↦ sweep n seg (advance clk e')
  | pick e' ↦ done (some clk.head, advance clk e')
]

unfoldable pub evict_tries : ℕ → Segment → Clock → Run (Option ℕ × Clock)
evict_tries zero seg clk = done (none, clk)
evict_tries (suc tries) seg clk = sweep (clk.capacity * max_loop) seg clk >>= λ r. elim r.0 [
  | some i ↦ done (some i, r.1)
  | none ↦ evict_tries tries seg r.1
]

unfoldable pub evict_without_clearing : Segment → Clock → Run (Option ℕ × Clock)
unfolding evict_tries
evict_without_clearing seg clk = evict_tries max_retries seg clk

-- The smallest number of entries is 3. `none` is an error.
unfoldable pub new_clock : ℕ → Bool → Run (Option Clock)
unfolding evict_without_clearing
new_clock item_count reserve =
    if ltb item_count 3
    then done none
    else (let clk : Clock = record {
      head = 0;
      capacity = item_count;
      b_pool = replicate item_count zeroed;
      reserved_entry = none;
    } in
        if not reserve
        then done (some clk)
        else (evict_without_clearing unassigned clk >>= λ r. elim r.0 [
          | none ↦ done none
          | some i ↦ index r.1.b_pool i λ e. done (
              some (record r.1 {
                b_pool = set r.1.b_pool i (record e { reserved = true });
                reserved_entry = some i;
              }))
        ]))
