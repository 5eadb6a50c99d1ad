-- ===== src/BPlusTree/Whole/Range/Descent.antt =====
-- `RangeSearch` on a tree.
use baobab.Prelude.{ℕ, length, true, ◌+◌, ◌≤◌, ◌≡◌, ◌⊎◌, none, some, List}
use baobab.Prelude.Run.{done}
use baobab.Prelude.Bytes.{Bytes}
use baobab.BPlusTree.Node.{Node}
use baobab.BPlusTree.Leaf.Entries.{lookup, IsLeaf}
use baobab.BPlusTree.Search.{RangeItem}
use baobab.BPlusTree.Search.Ranges.{not_below}
use baobab.BPlusTree.Cache.{Cache, build_page}
use baobab.BPlusTree.Insert.{BTree}
use baobab.BPlusTree.Whole.Tree.{Map, Tree}
use baobab.BPlusTree.Whole.Range.Scan.{pairs_of, collected, Chain}
use baobab.BPlusTree.Whole.Range.{in_range, range_not_found, scan_siblings, range_from, range_tree}

-- Without the key the error; with it, the scan from the right sibling of a leaf that has the key, with
-- the turns that are left.
abbrev pub Descends : {S : Type 0} → Cache S → S → Bytes → Bytes → ℕ → ℕ → Map → ℕ → ℕ → Type 0
Descends c s key max_key count height m fuel id =
    ((m key ≡ none)
      × ((found : List RangeItem) (right : ℕ)
          → range_from c fuel s key max_key count id found right ≡ done range_not_found))
    ⊎ ((node : Node) × (page : ℕ) × (left : ℕ) × (val : Bytes) × (build_page c s page ≡ some node)
        × (node.leaf ≡ true)
        × IsLeaf node
        × (lookup node key ≡ some val)
        × (m key ≡ some val)
        × (left + (height + 2) ≡ fuel)
        × ((found : List RangeItem) (right : ℕ)
            → range_from c fuel s key max_key count id found right
              ≡ scan_siblings c left s max_key count (not_below key node.keys node.values)
                  node.right_sibling))

-- Every stored leaf has at most `more` leaves to its right, the last without a right sibling.
abbrev pub AreLinked : {S : Type 0} → Cache S → S → ℕ → Type 0
AreLinked c s more =
    (id : ℕ) (n : Node)
    → build_page c s id ≡ some n
    → n.leaf ≡ true
    → (ns : List Node) × (length ns ≤ more) × Chain c s ns n.right_sibling

-- What `RangeSearch` comes to on a tree: the error, or the pairs.
abbrev pub RangeOutcome : {S : Type 0} → Cache S → BTree S → Bytes → Bytes → ℕ → Map → ℕ → Type 0
RangeOutcome c bt min_key max_key count m fuel =
    ((m min_key ≡ none) × (range_tree c fuel bt min_key max_key count ≡ done range_not_found))
    ⊎ ((node : Node) × (page : ℕ) × (ns : List Node) × (val : Bytes) × (build_page c bt.cache page
          ≡ some node)
        × IsLeaf node
        × (lookup node min_key ≡ some val)
        × (m min_key ≡ some val)
        × Chain c bt.cache ns node.right_sibling
        × (range_tree c fuel bt min_key max_key count
            ≡ done (
                in_range (
                  collected max_key count (not_below min_key node.keys node.values)
                    (pairs_of ns)))))
