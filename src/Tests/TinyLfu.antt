-- ===== src/Tests/TinyLfu.antt =====
-- internal/tinylfu.
use baobab.Prelude.{ℕ, ◌≤◌, ◌≡◌, arith, List, [], ◌∷◌, length}
use baobab.Prelude.Bytes.{Bytes}
use baobab.Prelude.Int.{pos}
use baobab.Prelude.Run.{done}
use baobab.TinyLfu.Sketch.{Cms, new_cms, get_count}
use baobab.TinyLfu.Sketch.Estimate.{increments, occurrences, get_count-occurrences}

abbrev hash : Bytes → ℕ
hash key = length key

abbrev items : List Bytes
items = (1 ∷ []) ∷ (2 ∷ []) ∷ (1 ∷ []) ∷ []

get_count-occurrences_example :
    (c : Cms) × (n : ℕ) × (increments hash items (new_cms 2 5) ≡ done c)
    × (get_count hash c (1 ∷ []) ≡ done (pos n))
    × (occurrences (1 ∷ []) items ≤ n)
    × (n ≤ length items)
get_count-occurrences_example =
    get_count-occurrences hash 2 5 items (1 ∷ []) (omega arith) (omega arith) (omega arith)
