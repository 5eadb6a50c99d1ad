-- ===== src/BPlusTree/Search/Answers.antt =====
-- `search` in a leaf, against the map that the leaf stands for.
use baobab.Prelude.{ℕ, ◌<◌, ◌≡◌, ap, ◌∙◌, arith, true, length, some, none, Option}
use baobab.Prelude.Run.{done}
use baobab.Prelude.Bytes.{Bytes}
use baobab.Helpers.Search.{insert_binary_search}
use baobab.Helpers.Search.Locates.{Locates, insert_binary_search-Locates}
use baobab.BPlusTree.Node.{Node}
use baobab.BPlusTree.Leaf.Entries.{lookup, IsLeaf}
use baobab.BPlusTree.Leaf.Around.{read_key, read_value}
use baobab.BPlusTree.Leaf.Remove.{lookup-at}
use baobab.BPlusTree.Search.{Answer, found, key_not_found, answer_at, search}

abbrev pub answer_of : Option Bytes → Answer
answer_of none = key_not_found
answer_of (some v) = found v

answer_at-lookup :
    (n : Node) (key : Bytes) (leaf : IsLeaf n) (i : ℕ) (f : Locates n.keys key i)
    → answer_at n key i ≡ done (answer_of (lookup n key))
answer_at-lookup n key leaf i f =
    let (v, e) = read_value n key leaf i f in
    ground (arith, read_key n key leaf i f, lookup-at n key leaf i f)

-- In a leaf with a key at least, `search` never panics: it returns the value that the leaf binds
-- the key to, or "Key not found" exactly when the leaf does not bind it.
pub search-lookup :
    (n : Node) (key : Bytes)
    → IsLeaf n
    → n.leaf ≡ true
    → 0 < length n.keys
    → search n key ≡ done (answer_of (lookup n key))
unfolding search
search-lookup n key leaf is_leaf some_key =
    let (i, e, f) = insert_binary_search-Locates n.keys key 0 some_key leaf.sorted in
    let at_i : insert_binary_search n.keys key 0 ≡ done i = e ∙ ap done (omega arith) in
    ground (arith, at_i, answer_at-lookup n key leaf i f, leaf.paired)
