-- ===== src/BPlusTree/Whole/Reads.antt =====
-- `Get` on a tree, against the map that the tree stands for.
use baobab.Prelude.{
  ℕ, zero, suc, ◌+◌, ◌≤◌, ◌<◌, ◌≡◌, ap, arith, inl, inr, Option, Option-cases, none, some, List, [],
  false,
}
use baobab.Prelude.Run.{done}
use baobab.Prelude.Bytes.{Bytes}
use baobab.BPlusTree.Node.{Node}
use baobab.BPlusTree.Leaf.Entries.{lookup}
use baobab.BPlusTree.Search.{next_node, search, follow}
use baobab.BPlusTree.Search.Answers.{search-lookup}
use baobab.BPlusTree.Search.Follow.{IsInternal, follow-Routes}
use baobab.BPlusTree.Cache.{Cache}
use baobab.BPlusTree.Insert.{BTree}
use baobab.BPlusTree.Whole.{Got, value, not_found, get_from, get}
use baobab.BPlusTree.Whole.Tree.{
  Map, Bound, NotUnder, Under, Tree, LeafPage, Sound, InnerPage-IsInternal,
}
use baobab.BPlusTree.Whole.Spot.{Kids-Spot}

abbrev pub got_of : Option Bytes → Got
got_of none = not_found
got_of (some v) = value v

search-next :
    (n : Node) (key : Bytes) (step : ℕ × ℕ)
    → IsInternal n
    → n.leaf ≡ false
    → follow n key ≡ done step
    → search n key ≡ done (next_node step.0)
unfolding search
search-next n key step w internal e = ground (arith, w.one_more, w.some_key, internal, e)

module _ {S : Type 0} (c : Cache S) (s : S) (sound : Sound c s) (key : Bytes) where
  get_from-leaf :
      (fuel : ℕ) (lo hi : Bound) (id : ℕ) (m : Map) (ids : List ℕ) (val : Bytes)
      → LeafPage c s lo hi id m ids
      → get_from c (suc (suc fuel)) s key id val ≡ done (got_of (m key))
  unfolding get_from
  get_from-leaf fuel lo hi id m ids val t =
      let positive = (sound id t.node t.stored).positive in
      let answers = search-lookup t.node key t.shape t.is_leaf t.some_key in
      elim (Option-cases (lookup t.node key)) [
        | inl e ↦ ground (arith, t.stored, answers, e, ap (λ n. n key) t.binds)
        | inr (v, e) ↦ ground (arith, t.stored, answers, e, ap (λ n. n key) t.binds)
      ]

  pub get_from-Tree :
      (height fuel : ℕ) (lo hi : Bound) (id : ℕ) (m : Map) (ids : List ℕ) (val : Bytes)
      → height + 2 ≤ fuel
      → Tree c height s lo hi id m ids
      → NotUnder lo key
      → Under hi key
      → get_from c fuel s key id val ≡ done (got_of (m key))
  unfolding get_from Tree
  get_from-Tree height zero lo hi id m ids val h t f b = absurd (omega arith)
  get_from-Tree zero (suc zero) lo hi id m ids val h t f b = absurd (omega arith)
  get_from-Tree zero (suc (suc fuel)) lo hi id m ids val h t f b =
      get_from-leaf fuel lo hi id m ids val t
  get_from-Tree (suc height) (suc fuel) lo hi id m ids val h t f b =
      let w = InnerPage-IsInternal c t in
      let (step, e, r) = follow-Routes t.node key w in
      let spot =
        Kids-Spot (Tree c height s) lo hi t.node.keys t.node.children m t.kid_ids key step.1 step.0
          t.kids f b r.child_at r.before r.after in
      let rest =
        get_from-Tree height fuel spot.low spot.high step.0 spot.map spot.own val (omega arith)
          spot.tree spot.from spot.below in
      let positive = (sound id t.node t.stored).positive in
      let next = search-next t.node key step w t.is_internal e in
      ground (arith, t.stored, next, rest, spot.same_at)

-- On a tree whose pages are sound, with one turn of the loop for each level and one more, `Get`
-- returns the value that the tree's map has for the key, and "Key not found" exactly when it has
-- none. It never panics and reports no other error.
pub get-Tree :
    {S : Type 0} (c : Cache S) (fuel height : ℕ) (bt : BTree S) (m : Map) (ids : List ℕ)
    (key : Bytes)
    → Sound c bt.cache
    → Tree c height bt.cache none none bt.root m ids
    → 0 < bt.root
    → height + 2 ≤ fuel
    → get c fuel bt key ≡ done (got_of (m key))
unfolding get
get-Tree c fuel height bt m ids key sound t positive h =
    ground
      (arith, get_from-Tree c bt.cache sound key height fuel none none bt.root m ids [] h t tt tt)
