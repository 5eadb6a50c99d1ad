-- ===== src/Pager/Ids/Fresh.antt =====
-- The pager hands out an id only while no page has it.
use baobab.Prelude.{
  ℕ, zero, suc, ◌+◌, ◌-◌, ◌^◌, ◌%◌, ◌≤◌, ◌<◌, ◌≡◌, ◌≢◌, refl, sym, ap, subst, ◌∙◌, arith, ◌⊎◌, inl,
  inr, ◌==◌, ltb, if◌then◌else◌, List, [], ◌∷◌, ◌++◌, length, take, drop, get_elem?,
  get_elem?_total, length-take, length-drop, length-append, true, some,
}
use baobab.Prelude.Bytes.{Bytes}
use baobab.Prelude.Run.{done}
use native.Mathlib.Decide.{dec_lt, ℕ_discrete}
use baobab.Pager.FreeList
use baobab.Pager.FreeList.{FreeList, minus_one}
use baobab.Pager.Page.{page_size_bytes}
use baobab.Pager.Ids.{Pager, new_page_id, write_page, is_dead, page_offset}

-- How often an id stands in a list.
abbrev pub times : ℕ → List ℕ → ℕ
times a [] = 0
times a (x ∷ xs) = (if a == x then 1 else 0) + times a xs

pub times-append : (a : ℕ) (xs ys : List ℕ) → times a (xs ++ ys) ≡ times a xs + times a ys
times-append a [] ys = omega arith
times-append a (x ∷ xs) ys = omega (arith, times-append a xs ys)

-- The ids of the pages in use are `live`. An id is in use or free, and not twice; all ids issued
-- lie from 1 to the largest, which is an int32.
pub record IdsSound (pgr : Pager) (live : List ℕ) : Type 0 where
  pub counted : pgr.free_list.count ≡ length pgr.free_list.free_pages
  pub once : (a : ℕ) → times a pgr.free_list.free_pages + times a live ≤ 1
  pub issued :
      (a : ℕ)
      → 0 < times a pgr.free_list.free_pages + times a live
      → (0 < a) × (a ≤ pgr.max_page_id)
  pub small : pgr.max_page_id < 2 ^ 31

-- Taking a cell out lowers the count of its value by one and no other.
times-without :
    (xs : List ℕ) (i a : ℕ) {p : ℕ}
    → get_elem? xs i ≡ some p
    → times a (take i xs ++ drop (suc i) xs) + times a (p ∷ []) ≡ times a xs
times-without [] i a h = cc
times-without (x ∷ xs) zero a h = ground arith
times-without (x ∷ xs) (suc i) a h = omega (arith, times-without xs i a h)

times_self : (a : ℕ) (xs : List ℕ) → times a (a ∷ xs) ≡ suc (times a xs)
times_self a xs = ground arith

times_ne : (a b : ℕ) (xs : List ℕ) → a ≢ b → times a (b ∷ xs) ≡ times a xs
times_ne a b xs h = ground arith

module _ (fl : FreeList) (counted : fl.count ≡ length fl.free_pages) where
  -- What is left in the list when the last id is taken.
  pub popped : FreeList
  popped = record {
    count = fl.count - 1;
    free_pages = take (fl.count - 1) fl.free_pages ++ drop fl.count fl.free_pages;
    is_dirty = true;
  }

  pop_last :
      0 < fl.count
      → (p : ℕ) × (get_elem? fl.free_pages (fl.count - 1) ≡ some p)
        × (FreeList.pop fl ≡ done (p % 2 ^ 32, popped))
  unfolding FreeList.pop popped
  pop_last some_id =
      let (p, e) = get_elem?_total fl.free_pages (fl.count - 1) (omega arith) in
      (p, e, ground (arith, e))

  pop_none : fl.count ≡ 0 → FreeList.pop fl ≡ done (minus_one, fl)
  unfolding FreeList.pop
  pop_none no_id = ground arith

  counted-popped : 0 < fl.count → popped.count ≡ length popped.free_pages
  unfolding popped
  counted-popped some_id = omega (
    arith,
    length-append (take (fl.count - 1) fl.free_pages) (drop fl.count fl.free_pages),
    length-take (fl.count - 1) fl.free_pages,
    length-drop fl.count fl.free_pages,
  )

  times-popped :
      (a p : ℕ)
      → 0 < fl.count
      → get_elem? fl.free_pages (fl.count - 1) ≡ some p
      → times a popped.free_pages + times a (p ∷ []) ≡ times a fl.free_pages
  unfolding popped
  times-popped a p some_id e =
      let same : suc (fl.count - 1) ≡ fl.count = omega arith in
      ap
        (λ k.
          times a (take (fl.count - 1) fl.free_pages ++ drop k fl.free_pages) + times a (p ∷ []))
        (sym same)
      ∙ times-without fl.free_pages (fl.count - 1) a e

times_new :
    (a m : ℕ) (f l : List ℕ)
    → times m f + times m l ≡ 0
    → times a f + times a l ≤ 1
    → times a f + times a (m ∷ l) ≤ 1
times_new a m f l new once = elim (ℕ_discrete a m) [
  | yes e ↦
      subst (λ x. times x f + times x (m ∷ l) ≤ 1) (sym e) (omega (arith, times_self m l, new))
  | no ne ↦ omega (arith, times_ne a m l ne, once)
]

times_new_pos :
    (a m : ℕ) (f l : List ℕ)
    → 0 < times a f + times a (m ∷ l)
    → (a ≡ m) ⊎ (0 < times a f + times a l)
times_new_pos a m f l h = elim (ℕ_discrete a m) [
  | yes e ↦ inl e
  | no ne ↦ inr (omega (arith, times_ne a m l ne, h))
]

-- A new id, and the pager that issued it.
pub record Issues (live : List ℕ) (id : ℕ) (pgr' : Pager) : Type 0 where
  pub unused : times id live ≡ 0
  pub not_zero : 0 < id
  pub sound : IdsSound pgr' (id ∷ live)

module _ (pgr : Pager) (live : List ℕ) (s : IdsSound pgr live) where
  new_id_from_list :
      0 < pgr.free_list.count
      → (id : ℕ) × (pgr' : Pager) × (new_page_id pgr ≡ done (id, pgr')) × Issues live id pgr'
  unfolding new_page_id
  new_id_from_list some_id =
      let fl = pgr.free_list in
      let (p, e, pops) = pop_last fl s.counted some_id in
      let here = times-popped fl s.counted p p some_id e in
      let self = times_self p [] in
      let bounds = s.issued p (omega (arith, here, self)) in
      let word : p % 2 ^ 32 ≡ p = omega (arith, bounds.1, s.small) in
      (
        p,
        record pgr { free_list = popped fl s.counted },
        rw (pops, word) (ground (arith, bounds.1, s.small)),
        record {
          unused = omega (arith, s.once p, here, self);
          not_zero = bounds.0;
          sound = record {
            counted = counted-popped fl s.counted some_id;
            once = λ a. omega (arith, s.once a, times-popped fl s.counted a p some_id e);
            issued = λ a h. s.issued a (omega (arith, h, times-popped fl s.counted a p some_id e));
            small = s.small;
          };
        },
      )

  new_id_above :
      pgr.free_list.count ≡ 0
      → pgr.max_page_id + 1 < 2 ^ 31
      → (id : ℕ) × (pgr' : Pager) × (new_page_id pgr ≡ done (id, pgr')) × Issues live id pgr'
  unfolding new_page_id
  new_id_above no_id room =
      let m = pgr.max_page_id + 1 in
      let word : m % 2 ^ 32 ≡ m = omega (arith, room) in
      let new : times m pgr.free_list.free_pages + times m live ≡ 0 = not_issued in
      (
        m,
        record pgr { max_page_id = m },
        rw (pop_none pgr.free_list s.counted no_id, word) refl,
        record {
          unused = omega (arith, new);
          not_zero = omega arith;
          sound = record {
            counted = s.counted;
            once = λ a. times_new a m pgr.free_list.free_pages live new (s.once a);
            issued = λ a h. elim (times_new_pos a m pgr.free_list.free_pages live h) [
              | inl e ↦ omega (arith, e)
              | inr old ↦ omega (arith, s.issued a old)
            ];
            small = room;
          };
        },
      )
    where
      not_issued :
          times (pgr.max_page_id + 1) pgr.free_list.free_pages + times (pgr.max_page_id + 1) live
          ≡ 0
      not_issued =
          elim (dec_lt 0 (
            times (pgr.max_page_id + 1) pgr.free_list.free_pages
            + times (pgr.max_page_id + 1) live)) [
              | yes pos ↦ absurd (omega (arith, (s.issued (pgr.max_page_id + 1) pos).1))
              | no zero_times ↦ omega arith
            ]

-- While an id is free or the largest id can still grow, `NewPageId` returns an id that no page in
-- use has and that is not 0, and the bookkeeping stays sound with the id in use.
pub new_page_id-Issues :
    (pgr : Pager) (live : List ℕ)
    → IdsSound pgr live
    → (0 < pgr.free_list.count) ⊎ (pgr.max_page_id + 1 < 2 ^ 31)
    → (id : ℕ) × (pgr' : Pager) × (new_page_id pgr ≡ done (id, pgr')) × Issues live id pgr'
new_page_id-Issues pgr live s (inl some_id) = new_id_from_list pgr live s some_id
new_page_id-Issues pgr live s (inr room) = elim (dec_lt 0 pgr.free_list.count) [
  | yes some_id ↦ new_id_from_list pgr live s some_id
  | no no_id ↦ new_id_above pgr live s (omega arith) room
]

-- Once the write of a dead page in use has succeeded, its id is free and no longer in use, and the
-- bookkeeping stays sound.
pub write_page-IdsSound :
    (pgr : Pager) (live rest : List ℕ) (id : ℕ) (buff : Bytes)
    → IdsSound pgr live
    → length buff ≡ page_size_bytes
    → is_dead buff ≡ true
    → ((a : ℕ) → times a (id ∷ rest) ≡ times a live)
    → (pgr' : Pager) × (write_page pgr id buff true ≡ some pgr')
      × IdsSound pgr' rest
      × (times id pgr'.free_list.free_pages ≡ 1)
unfolding write_page
write_page-IdsSound pgr live rest id buff s full is_dead_page in_use = (
  record pgr {
    free_list = record {
      count = pgr.free_list.count + 1;
      free_pages = id ∷ pgr.free_list.free_pages;
      is_dirty = true;
    };
    page_count = if ltb 0 pgr.page_count then pgr.page_count - 1 else pgr.page_count;
  },
  ground (arith, full, is_dead_page),
  record {
    counted = omega (arith, s.counted);
    once = λ a. omega (arith, s.once a, in_use a);
    issued = λ a h. s.issued a (omega (arith, h, in_use a));
    small = s.small;
  },
  omega (arith, s.once id, in_use id, times_self id rest, times_self id pgr.free_list.free_pages),
)

-- Pages whose ids differ by 2 ^ 19 have the same place in the data file.
pub page_offset_collides : (id : ℕ) → page_offset (id + 2 ^ 19) ≡ page_offset id
unfolding page_offset
page_offset_collides id = omega arith

-- Two different ids below 2 ^ 19 have places in the data file that do not overlap.
pub page_offset_apart :
    (i j : ℕ)
    → i < 2 ^ 19
    → j < 2 ^ 19
    → i ≢ j
    → (page_offset i + page_size_bytes ≤ page_offset j)
      ⊎ (page_offset j + page_size_bytes ≤ page_offset i)
unfolding page_offset
page_offset_apart i j hi hj ne = grind arith
