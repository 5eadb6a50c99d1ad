-- ===== src/TinyLfu/Sketch.antt =====
-- internal/tinylfu/hashfuncs.go and count-min-sketch.go: double hashing and the count-min sketch. `sum64`
-- is the hash function of the library that the source calls. The widths come from floating point in
-- `NewCMS`; here they are given.
pub mod Counts
pub mod Estimate
use baobab.Prelude.{
  ℕ, zero, suc, ◌+◌, ◌*◌, ◌/◌, ◌%◌, ◌^◌, ltb, ◌==◌, if◌then◌else◌, Bool, true, false, Option, none,
  some, List, [], ◌∷◌, ◌++◌, map, length, set, replicate,
}
use baobab.Prelude.Bytes.{Bytes}
use baobab.Prelude.Int.{ℤ, int64}
use baobab.Prelude.Run.{Run, done, panics, ◌>>=◌, index}

abbrev pub add_u64 : ℕ → ℕ → ℕ
add_u64 a b = (a + b) % 2 ^ 64

-- `h2` made odd.
abbrev pub odd : ℕ → ℕ
odd h = if h % 2 == 0 then add_u64 h 1 else h

-- The indices for `i`, `i + 1` and so on, `n` of them.
abbrev pub indices_from : ℕ → ℕ → ℕ → ℕ → ℕ → List ℕ
indices_from h1 h2 m i zero = []
indices_from h1 h2 m i (suc n) = add_u64 h1 (i * h2 % 2 ^ 64) % m ∷ indices_from h1 h2 m (i + 1) n

-- A remainder by 0 panics, when there is an index to compute at all.
unfoldable pub double_hash_indices : (Bytes → ℕ) → Bytes → ℕ → ℕ → Run (List ℕ)
double_hash_indices sum64 key k m =
    if m == 0
    then (if k == 0 then done [] else panics)
    else done (indices_from (sum64 key) (odd (sum64 (key ++ (1 ∷ [])))) m 0 k)

pub record Cms : Type 0 where
  pub k : ℕ
  pub width : ℕ
  pub arr : List (List ℕ)
  pub op_counter : ℕ

unfoldable pub new_cms : ℕ → ℕ → Cms
new_cms d w = record { k = d; width = w; arr = replicate d (replicate w 0); op_counter = 0 }

-- `for i, v := range indices { c.arr[i][v] += 1 }`
unfoldable pub bump_rows : List (List ℕ) → List ℕ → Run (List (List ℕ))
bump_rows rows [] = done rows
bump_rows [] (v ∷ vs) = panics
bump_rows (r ∷ rows) (v ∷ vs) =
    index r v λ x. bump_rows rows vs >>= λ rest. done (set r v (add_u64 x 1) ∷ rest)

unfoldable pub increment : (Bytes → ℕ) → Cms → Bytes → Run (ℕ × Cms)
unfolding bump_rows double_hash_indices
increment sum64 c key = double_hash_indices sum64 key c.k c.width >>= λ indices.
    bump_rows c.arr indices >>= λ arr.
    done (add_u64 c.op_counter 1, record c { arr = arr; op_counter = add_u64 c.op_counter 1 })

-- The smallest cell that the indices name; `none` before the first.
unfoldable pub least : Option ℕ → List (List ℕ) → List ℕ → Run (Option ℕ)
least count rows [] = done count
least count [] (v ∷ vs) = panics
least count (r ∷ rows) (v ∷ vs) = index r v λ val.
    least (elim count [ none ↦ some val | some c ↦ if ltb val c then some val else some c ]) rows vs

-- Without an index the source dereferences nil.
unfoldable pub get_count : (Bytes → ℕ) → Cms → Bytes → Run ℤ
unfolding least double_hash_indices
get_count sum64 c key = double_hash_indices sum64 key c.k c.width >>= λ indices.
    least none c.arr indices >>= λ count. elim count [ none ↦ panics | some n ↦ done (int64 n) ]

unfoldable pub reset : Cms → Cms
reset c = record c { arr = map (λ row. map (λ x. x / 2) row) c.arr; op_counter = 0 }
