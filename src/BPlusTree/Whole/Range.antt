-- ===== src/BPlusTree/Whole/Range.antt =====
-- pkg/bptree/bp_tree.go: `RangeSearch`, from the root to a leaf and on along the right siblings.
pub mod Scan
pub mod Descent
use baobab.Prelude.{
  ℕ, zero, suc, ◌+◌, leb, ltb, ◌==◌, ◌&&◌, ◌||◌, ◌^◌, not, if◌then◌else◌, Bool, true, false, Option,
  none, some, List, [], ◌∷◌, ◌++◌, length,
}
use baobab.Prelude.Run.{Run, done, panics, stuck, ◌>>=◌}
use baobab.Prelude.Bytes.{Bytes, less, same, greater, compare_bytes}
use baobab.BPlusTree.Node.{Node}
use baobab.BPlusTree.Search.{
  RangeItem, no_items, items, range_key_not_found, range_next_node, range_search,
}
use baobab.BPlusTree.Cache.{Cache, build_page}
use baobab.BPlusTree.Insert.{BTree}

-- The pairs that were found, or an error: of the cache, or of `RangeSearch` itself.
pub data Ranged : Type 0 where
  in_range : List RangeItem → Ranged
  range_not_found : Ranged
  range_not_initialized : Ranged
  internal_sibling : Ranged
  range_cache_error : Ranged

-- `break RangeLoop`, or on to the next sibling.
pub record Scanned : Type 0 where
  pub stops : Bool
  pub so_far : List RangeItem

-- `len(items) >= int(count)`, for the bit pattern of an int32.
abbrev pub reaches : ℕ → ℕ → Bool
reaches count n = leb (2 ^ 31) count || leb count n

-- `len(maxKey) > 0 && bytes.Compare(maxKey, k) == 1`
abbrev pub stops_at : Bytes → Bytes → Bool
stops_at max_key k =
    ltb 0 (length max_key)
    && elim (compare_bytes max_key k) [ greater ↦ true | less ↦ false | same ↦ false ]

-- The keys of one sibling.
unfoldable pub scan_keys : Bytes → ℕ → List Bytes → List Bytes → List RangeItem → Run Scanned
scan_keys max_key count [] vals found = done (record { stops = false; so_far = found })
scan_keys max_key count (k ∷ ks) vals found = elim (stops_at max_key k) [
  | true ↦ done (record { stops = true; so_far = found })
  | false ↦ elim vals [
    | [] ↦ panics
    | v ∷ vs ↦
        let more = found ++ (record { key = k; val = v } ∷ []) in
        elim (reaches count (length more)) [
          | true ↦ done (record { stops = true; so_far = more })
          | false ↦ scan_keys max_key count ks vs more
        ]
  ]
]

module _ {S : Type 0} (c : Cache S) where
  -- `for rightSibId > 0`
  unfoldable pub scan_siblings : ℕ → S → Bytes → ℕ → List RangeItem → ℕ → Run Ranged
  scan_siblings zero s max_key count found right_sib_id = stuck
  scan_siblings (suc fuel) s max_key count found right_sib_id = elim (right_sib_id == 0) [
    | true ↦ done (in_range found)
    | false ↦ elim (build_page c s right_sib_id) [
      | none ↦ done range_cache_error
      | some right_sib ↦ elim right_sib.leaf [
        | false ↦ done internal_sibling
        | true ↦ scan_keys max_key count right_sib.keys right_sib.values found >>= λ r.
            elim r.stops [
              | true ↦ done (in_range r.so_far)
              | false ↦ scan_siblings fuel s max_key count r.so_far right_sib.right_sibling
            ]
      ]
    ]
  ]

  -- `for nodePageId > 0`, and what follows. On a node without keys the loop reads the same page again.
  unfoldable pub range_from : ℕ → S → Bytes → Bytes → ℕ → ℕ → List RangeItem → ℕ → Run Ranged
  range_from zero s min_key max_key count node_page_id found right_sib_id = stuck
  range_from (suc fuel) s min_key max_key count node_page_id found right_sib_id =
      elim (node_page_id == 0) [
        | true ↦ scan_siblings fuel s max_key count found right_sib_id
        | false ↦ elim (build_page c s node_page_id) [
          | none ↦ done range_cache_error
          | some pge ↦ range_search pge min_key >>= λ answer. elim answer [
            | no_items ↦ range_from fuel s min_key max_key count node_page_id [] 0
            | items l right ↦ range_from fuel s min_key max_key count 0 l right
            | range_key_not_found ↦ done range_not_found
            | range_next_node child ↦ range_from fuel s min_key max_key count child [] 0
          ]
        ]
      ]

  unfoldable pub range_tree : ℕ → BTree S → Bytes → Bytes → ℕ → Run Ranged
  range_tree fuel bt min_key max_key count =
      if bt.root == 0
      then done range_not_initialized
      else range_from fuel bt.cache min_key max_key count bt.root [] 0
