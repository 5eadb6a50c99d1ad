-- ===== src/BPlusTree/Whole/Follows.antt =====
-- `insert` on an internal node of a tree, and a child put back.
use baobab.Prelude.{
  ℕ, suc, ◌≡◌, sym, ap, subst, ◌∙◌, arith, some, false, List, [], ◌∷◌, ◌++◌, take, drop, get_elem?,
  take-append-drop, drop-get_elem?,
}
use baobab.Prelude.Run.{done, ◌>>=◌}
use baobab.Prelude.Bytes.{Bytes}
use baobab.Helpers.Lsn.{ok}
use baobab.Helpers.Search.{insert_binary_search}
use baobab.Helpers.Search.Locates.{insert_binary_search-Locates}
use baobab.BPlusTree.Node.{Node}
use baobab.BPlusTree.Search.{follow, follow_at}
use baobab.BPlusTree.Search.Follow.{IsInternal, read_separator}
use baobab.BPlusTree.Stack.{BtStack, add}
use baobab.BPlusTree.Cache.{Cache}
use baobab.BPlusTree.Insert.{BTree, SplitResponse, insert}
use baobab.BPlusTree.Whole.Tree.{Map, Bound, Shape, Kids}

-- On an internal node `insert` remembers the node and goes on with the child.
pub insert-follow :
    {S : Type 0} (c : Cache S) (bt : BTree S) (lsn : Bytes) (n : Node) (key val : Bytes)
    (rp : SplitResponse) (st : BtStack) (step : ℕ × ℕ)
    → IsInternal n
    → n.leaf ≡ false
    → follow n key ≡ done step
    → insert c bt lsn n key val rp st
      ≡ done (
          ok (record {
            bt = bt;
            next = step.0;
            rp = rp;
            stack = add st (record { n = n; idx = step.1 });
          }))
unfolding insert follow
insert-follow c bt lsn n key val rp st step w internal follows =
    let (i, e, f) = insert_binary_search-Locates n.keys key 0 w.some_key w.sorted in
    let finds : insert_binary_search n.keys key 0 ≡ done i = e ∙ ap done (omega arith) in
    let there : follow_at n key i ≡ done step =
      ap (λ r. r >>= λ idx. follow_at n key idx) (sym finds) ∙ follows in
    ground (arith, w.some_key, finds, read_separator n key w i f, internal, there)

-- A child that is put back where it was.
pub same-Kids :
    (P : Shape) (lo hi : Bound) (n₁ n : Node) (m : Map) (kid_ids : List ℕ) (i child : ℕ)
    → get_elem? n.children i ≡ some child
    → n₁.keys ≡ n.keys
    → n₁.children ≡ n.children
    → Kids P lo hi
        (take i n.keys ++ ([] ++ drop i n.keys))
        (take i n.children ++ ((child ∷ []) ++ drop (suc i) n.children))
        m
        kid_ids
    → Kids P lo hi n₁.keys n₁.children m kid_ids
same-Kids P lo hi n₁ n m kid_ids i child at_i keys children kids =
    let ks : take i n.keys ++ drop i n.keys ≡ n₁.keys = take-append-drop i n.keys ∙ sym keys in
    let cs : take i n.children ++ (child ∷ drop (suc i) n.children) ≡ n₁.children =
      ap (λ l. take i n.children ++ l) (sym (drop-get_elem? n.children i at_i))
      ∙ take-append-drop i n.children
      ∙ sym children in
    subst (λ l. Kids P lo hi l n₁.children m kid_ids) ks
      (subst (λ l. Kids P lo hi (take i n.keys ++ drop i n.keys) l m kid_ids) cs kids)
