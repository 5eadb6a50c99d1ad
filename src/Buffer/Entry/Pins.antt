-- ===== src/Buffer/Entry/Pins.antt =====
-- The access bit of an entry, against its pins.
use baobab.Prelude.{
  ℕ, suc, ◌+◌, ◌-◌, ◌^◌, ◌≤◌, ◌<◌, ◌≡◌, refl, subst, arith, inl, inr, true, false, List, [], ◌∷◌,
  ◌↔◌,
}
use baobab.Prelude.Run.{Run, done, ◌>>=◌, done-injective, Run-cases}
use baobab.Buffer.Entry.{
  Segment, Entry, zeroed, reference, ref_if_occupied, ref_if_not_referenced, unref, update_segment,
  update_segment_cas, mark_for_eviction, unmark_for_eviction, mark_occupied, mark_vacant,
  reset_entry, clear_entry,
}

-- The methods that change an entry.
pub data Method : Type 0 where
  references refs_if_occupied refs_if_not_referenced unrefs marks unmarks : Method
  occupies vacates resets clears : Method
  updates : Segment → Method
  updates_cas : Segment → Segment → Method

unfoldable pub call : Method → Entry → Run Entry
call references e = done (reference e)
call refs_if_occupied e = done (ref_if_occupied e).0
call refs_if_not_referenced e = done (ref_if_not_referenced e).0
call unrefs e = unref e
call marks e = done (mark_for_eviction e)
call unmarks e = done (unmark_for_eviction e)
call occupies e = done (mark_occupied e)
call vacates e = done (mark_vacant e)
call resets e = done (reset_entry e)
call clears e = done (clear_entry e)
call (updates seg) e = done (update_segment e seg)
call (updates_cas old seg) e = done (update_segment_cas e old seg).0

-- How many pins are not yet undone; the access bit is set exactly while there is one.
abbrev pub pins_held : Entry → ℕ
pins_held e = e.pin_count - e.unpin_count

pub record PinsMatch (e : Entry) : Type 0 where
  pub undone : e.unpin_count ≤ e.pin_count
  pub held : e.acc ≡ true → e.unpin_count < e.pin_count
  pub free : e.acc ≡ false → e.unpin_count ≡ e.pin_count

unfoldable pub calls : List Method → Entry → Run Entry
calls [] e = done e
calls (m ∷ ms) e = call m e >>= λ e'. calls ms e'

abbrev pub length_of : List Method → ℕ
length_of [] = 0
length_of (m ∷ ms) = suc (length_of ms)

call-PinsMatch :
    (m : Method) (e e' : Entry)
    → e.pin_count + 1 < 2 ^ 64
    → PinsMatch e
    → call m e ≡ done e'
    → PinsMatch e' × (e'.pin_count ≤ e.pin_count + 1)
unfolding call reference ref_if_occupied ref_if_not_referenced unref update_segment
    update_segment_cas mark_for_eviction unmark_for_eviction mark_occupied mark_vacant reset_entry
    clear_entry
call-PinsMatch references e e' room p h = ground arith
call-PinsMatch _ e e' room p h = ground arith

calls-PinsMatch :
    (ms : List Method) (e e' : Entry)
    → e.pin_count + length_of ms < 2 ^ 64
    → PinsMatch e
    → calls ms e ≡ done e'
    → PinsMatch e'
unfolding calls
calls-PinsMatch [] e e' room p h = subst PinsMatch (done-injective h) p
calls-PinsMatch (m ∷ ms) e e' room p h = elim (Run-cases (call m e)) [
  | inl (mid, first) ↦
      let (p', few) = call-PinsMatch m e mid (omega arith) p first in
      calls-PinsMatch ms mid e' (omega arith) p' (rw first at h)
  | inr other ↦ absurd (other e' (λ k. calls ms k) h)
]

zeroed-PinsMatch : PinsMatch zeroed
zeroed-PinsMatch = record {
  undone = omega arith;
  held = λ h. absurd (ground arith);
  free = λ h. refl;
}

-- After any calls of an entry's methods on zeroed memory, as long as fewer than 2 ^ 64 of them are
-- made and none panics, the access bit is set exactly while some pin is not yet undone.
pub acc-pins :
    (ms : List Method) (e : Entry)
    → length_of ms < 2 ^ 64
    → calls ms zeroed ≡ done e
    → (e.acc ≡ true) ↔ (0 < pins_held e)
acc-pins ms e few h =
    let p = calls-PinsMatch ms zeroed e (omega arith) zeroed-PinsMatch h in
    (λ a. omega (arith, p.held a), λ pos. held_if pos p)
  where
    held_if : 0 < pins_held e → PinsMatch e → e.acc ≡ true
    held_if pos p = ground (arith, p.free)
