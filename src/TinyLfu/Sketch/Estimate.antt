-- ===== src/TinyLfu/Sketch/Estimate.antt =====
-- The estimate of a key against the number of times that the key came.
use baobab.Prelude.{
  ℕ, zero, suc, ◌+◌, ◌^◌, ◌≤◌, ◌<◌, ◌≡◌, refl, sym, ap, subst, ◌∙◌, arith, ◌⊎◌, inl, inr, ltb,
  if◌then◌else◌, none, some, List, [], ◌∷◌, ◌++◌, length, get_elem?, replicate, length-replicate,
}
use native.Mathlib.Nat.{mod-lt}
use baobab.Prelude.Bytes.{Bytes, same, compare_bytes, compare_bytes-same}
use baobab.Prelude.Int.{pos, int64-pos}
use baobab.Prelude.Run.{Run, done, ◌>>=◌}
use baobab.TinyLfu.Sketch.{
  odd, indices_from, double_hash_indices, Cms, new_cms, increment, least, get_count, add_u64,
}
use baobab.TinyLfu.Sketch.Counts.{Cells, Rows, Indices, Bumped, bump_rows-Bumped}

unfoldable pub increments : (Bytes → ℕ) → List Bytes → Cms → Run Cms
unfolding increment
increments sum64 [] c = done c
increments sum64 (x ∷ xs) c = increment sum64 c x >>= λ r. increments sum64 xs r.1

-- How often the key stands in the list.
pub occurrences : Bytes → List Bytes → ℕ
occurrences key [] = 0
occurrences key (x ∷ xs) =
    let rest = occurrences key xs in elim (compare_bytes key x) [ same ↦ rest + 1 | _ ↦ rest ]

once_or_never :
    (key x : Bytes)
    → ((compare_bytes key x ≡ same) × (occurrences key (x ∷ []) ≡ 1))
      ⊎ (occurrences key (x ∷ []) ≡ 0)
unfolding occurrences
once_or_never key x = ground arith

occurrences-cons :
    (key x : Bytes) (xs : List Bytes)
    → occurrences key (x ∷ xs) ≡ occurrences key (x ∷ []) + occurrences key xs
unfolding occurrences
occurrences-cons key x xs = ground arith

module _ (sum64 : Bytes → ℕ) where
  abbrev cells_of : Cms → Bytes → List ℕ
  cells_of c key = indices_from (sum64 key) (odd (sum64 (key ++ (1 ∷ [])))) c.width 0 c.k

  -- A sketch of the right shape whose cells are at most `top`.
  record Sound (top : ℕ) (c : Cms) : Type 0 where
    wide : 0 < c.width
    shaped : Rows c.width top c.arr
    rows : length c.arr ≡ c.k

  indices :
      (c : Cms) (key : Bytes)
      → 0 < c.width
      → double_hash_indices sum64 key c.k c.width ≡ done (cells_of c key)
  unfolding double_hash_indices
  indices c key wide = ground arith

  indices_from-Indices :
      (h1 h2 w i n : ℕ) (rows : List (List ℕ))
      → 0 < w
      → length rows ≡ n
      → Indices w rows (indices_from h1 h2 w i n)
  indices_from-Indices h1 h2 w i zero [] wide h = tt
  indices_from-Indices h1 h2 w i zero (r ∷ rows) wide h = absurd (omega arith)
  indices_from-Indices h1 h2 w i (suc n) [] wide h = absurd (omega arith)
  indices_from-Indices h1 h2 w i (suc n) (r ∷ rows) wide h =
      (mod-lt _ wide, indices_from-Indices h1 h2 w (i + 1) n rows wide (omega arith))

  step :
      (top : ℕ) (c : Cms) (x : Bytes)
      → Sound top c
      → top + 1 < 2 ^ 64
      → (rows' : List (List ℕ)) × Bumped c.width top c.arr (cells_of c x) rows'
        × (increment sum64 c x
            ≡ done (
              add_u64 c.op_counter 1,
              record c { arr = rows'; op_counter = add_u64 c.op_counter 1 },
            ))
  unfolding increment
  step top c x ok room =
      let (rows', b) =
        bump_rows-Bumped c.width top c.arr (cells_of c x) ok.shaped
          (indices_from-Indices _ _ c.width 0 c.k c.arr ok.wide ok.rows) room in
      (rows', b, ground (arith, indices c x ok.wide, b.ran))

  Indices-length :
      (w : ℕ) (rows : List (List ℕ)) (js : List ℕ) → Indices w rows js → length rows ≡ length js
  Indices-length w [] [] h = refl
  Indices-length w [] (j ∷ js) h = absurd h
  Indices-length w (r ∷ rows) [] h = absurd h
  Indices-length w (r ∷ rows) (j ∷ js) h = ap suc (Indices-length w rows js h.1)

  length-indices_from : (h1 h2 m i n : ℕ) → length (indices_from h1 h2 m i n) ≡ n
  length-indices_from h1 h2 m i zero = refl
  length-indices_from h1 h2 m i (suc n) = ap suc (length-indices_from h1 h2 m (i + 1) n)

  step-Sound :
      (top : ℕ) (c : Cms) (x : Bytes) (rows' : List (List ℕ)) (n : ℕ)
      → Sound top c
      → Bumped c.width top c.arr (cells_of c x) rows'
      → Sound (top + 1) (record c { arr = rows'; op_counter = n })
  step-Sound top c x rows' n ok b =
      let ix = indices_from-Indices _ _ c.width 0 c.k c.arr ok.wide ok.rows in
      record {
        wide = ok.wide;
        shaped = b.shaped;
        rows =
            Indices-length c.width rows' (cells_of c x) (b.still (cells_of c x) ix)
            ∙ length-indices_from _ _ c.width 0 c.k;
      }

  -- What one more item does to the lower bound of a key.
  count_one :
      (key x : Bytes) (top : ℕ) (c : Cms) (rows' : List (List ℕ)) (n : ℕ)
      → Bumped c.width top c.arr (cells_of c x) rows'
      → Cells c.arr (cells_of c key) n
      → Cells rows' (cells_of c key) (n + occurrences key (x ∷ []))
  count_one key x top c rows' n b have = elim (once_or_never key x) [
    | inl (eq, once) ↦
        subst
          (λ y.
            Cells c.arr (cells_of c y) n
            → Cells rows' (cells_of c y) (n + occurrences key (x ∷ [])))
          (sym (compare_bytes-same key x eq))
          (λ cells.
            subst (Cells rows' (cells_of c x)) {x = n + 1} (omega (arith, once)) (b.more n cells))
          have
    | inr never ↦
        subst (Cells rows' (cells_of c key)) {x = n} (omega (arith, never))
          (b.kept (cells_of c key) n have)
  ]

  run :
      (xs : List Bytes) (key : Bytes) (top n : ℕ) (c : Cms)
      → Sound top c
      → Cells c.arr (cells_of c key) n
      → top + length xs < 2 ^ 64
      → (c' : Cms) × (increments sum64 xs c ≡ done c')
        × (c'.k ≡ c.k)
        × Sound (top + length xs) c'
        × Cells c'.arr (cells_of c' key) (n + occurrences key xs)
  unfolding increments
  run [] key top n c ok have room = (
    c,
    refl,
    refl,
    subst (λ t. Sound t c) {x = top} (omega arith) ok,
    subst (Cells c.arr (cells_of c key)) {x = n} (unfold occurrences in omega arith) have,
  )
  run (x ∷ xs) key top n c ok have room =
      let (rows', b, ran) = step top c x ok (omega arith) in
      let n1 = add_u64 c.op_counter 1 in
      let c1 : Cms = record c { arr = rows'; op_counter = n1 } in
      let (c', ran', k', ok', have') =
        run xs key (top + 1) (n + occurrences key (x ∷ [])) c1 (step-Sound top c x rows' n1 ok b)
          (count_one key x top c rows' n b have) (omega arith) in
      (
        c',
        rw ran ran',
        k',
        subst (λ t. Sound t c') {x = top + 1 + length xs} (omega arith) ok',
        subst (Cells c'.arr (cells_of c' key)) (omega (arith, occurrences-cons key x xs)) have',
      )

least-between :
    (w top : ℕ) (rows : List (List ℕ)) (is : List ℕ) (n m : ℕ)
    → Rows w top rows
    → Cells rows is n
    → n ≤ m
    → m ≤ top
    → (r : ℕ) × (least (some m) rows is ≡ done (some r)) × (n ≤ r) × (r ≤ top)
unfolding least
least-between w top [] [] n m shape have le ge = (m, refl, le, ge)
least-between w top [] (i ∷ is) n m shape have le ge = absurd have
least-between w top (r ∷ rows) [] n m shape have le ge = absurd have
least-between w top (r ∷ rows) (i ∷ is) n m shape ((x, rx, lx), rest) le ge =
    let (v, ran, lv, uv) =
      least-between w top rows is n (if ltb x m then x else m) shape.1 rest (ground arith)
        (ground arith) in
    (v, ground (arith, rx, ran), lv, uv)

fresh-Cells :
    (d w : ℕ) (is : List ℕ)
    → Indices w (replicate d (replicate w 0)) is
    → Cells (replicate d (replicate w 0)) is 0
fresh-Cells zero w [] h = tt
fresh-Cells zero w (i ∷ is) h = absurd h
fresh-Cells (suc d) w [] h = absurd h
fresh-Cells (suc d) w (i ∷ is) h = ((0, zero_at w i h.0, omega arith), fresh-Cells d w is h.1)
  where
    zero_at : (w i : ℕ) → i < w → get_elem? {A = ℕ} (replicate w 0) i ≡ some 0
    zero_at zero i h = absurd (omega arith)
    zero_at (suc w) zero h = refl
    zero_at (suc w) (suc i) h = zero_at w i (omega arith)

fresh-Rows : (d w : ℕ) → Rows w 0 (replicate d (replicate w 0))
fresh-Rows zero w = tt
fresh-Rows (suc d) w = ((length-replicate w 0, low w), fresh-Rows d w)
  where
    low : (w i x : ℕ) → get_elem? {A = ℕ} (replicate w 0) i ≡ some x → x ≤ 0
    low zero i x h = cc
    low (suc w) zero x h = ground arith
    low (suc w) (suc i) x h = low w i x h

-- The first row starts the minimum.
least-some :
    (w top : ℕ) (rows : List (List ℕ)) (is : List ℕ) (n : ℕ)
    → 0 < length rows
    → Rows w top rows
    → Cells rows is n
    → (r : ℕ) × (least none rows is ≡ done (some r)) × (n ≤ r) × (r ≤ top)
unfolding least
least-some w top [] is n some_row shape have = absurd (omega arith)
least-some w top (r ∷ rows) [] n some_row shape have = absurd have
least-some w top (r ∷ rows) (i ∷ is) n some_row shape ((x, rx, lx), rest) =
    let (v, ran, lv, uv) = least-between w top rows is n x shape.1 rest lx (shape.0.1 i x rx) in
    (v, ground (arith, rx, ran), lv, uv)

-- In a new sketch with at least one row and one column, the estimate of a key is never less than the
-- number of times that the key was counted and never more than the number of all items, whatever the
-- hash function, as long as fewer than 2 ^ 63 items are counted; neither counting nor asking panics.
pub get_count-occurrences :
    (sum64 : Bytes → ℕ) (d w : ℕ) (xs : List Bytes) (key : Bytes)
    → 0 < d
    → 0 < w
    → length xs < 2 ^ 63
    → (c : Cms) × (n : ℕ) × (increments sum64 xs (new_cms d w) ≡ done c)
      × (get_count sum64 c key ≡ done (pos n))
      × (occurrences key xs ≤ n)
      × (n ≤ length xs)
unfolding new_cms get_count
get_count-occurrences sum64 d w xs key some_row some_column few =
    let fresh : Cms = new_cms d w in
    let shape : Sound sum64 0 fresh = record {
      wide = some_column;
      shaped = fresh-Rows d w;
      rows = length-replicate d _;
    } in
    let ix =
      indices_from-Indices sum64 _ _ w 0 d (replicate d (replicate w 0)) some_column
        (length-replicate d _) in
    let (c, ran, same_k, ok, have) =
      run sum64 xs key 0 0 fresh shape (fresh-Cells d w (cells_of sum64 fresh key) ix)
        (omega arith) in
    let (n, found, lower, upper) =
      least-some c.width (0 + length xs) c.arr (cells_of sum64 c key) _
        (omega (arith, ok.rows, same_k)) ok.shaped have in
    (
      c,
      n,
      ran,
      ground (arith, indices sum64 c key ok.wide, found, int64-pos n (omega (arith, upper))),
      omega (arith, lower),
      omega (arith, upper),
    )
