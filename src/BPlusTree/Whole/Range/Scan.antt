-- ===== src/BPlusTree/Whole/Range/Scan.antt =====
-- What the scan of the right siblings collects, against one list of their pairs.
use baobab.Prelude.{
  ℕ, zero, suc, ◌+◌, ◌-◌, ◌<◌, ◌≡◌, refl, sym, ap, ◌∙◌, arith, if◌then◌else◌, ◌⊎◌, inl, inr,
  Bool-cases, true, false, some, List, [], ◌∷◌, ◌++◌, length, take, length-append, append_assoc,
  append-nil,
}
use baobab.Prelude.Run.{done}
use baobab.Prelude.Bytes.{Bytes}
use baobab.BPlusTree.Node.{Node}
use baobab.BPlusTree.Search.{RangeItem}
use baobab.BPlusTree.Cache.{Cache, build_page}
use baobab.BPlusTree.Whole.Range.{in_range, reaches, stops_at, scan_keys, scan_siblings}

-- The pairs of a leaf, and of leaves one after the other.
abbrev pub pairs : List Bytes → List Bytes → List RangeItem
pairs [] vs = []
pairs (k ∷ ks) [] = []
pairs (k ∷ ks) (v ∷ vs) = record { key = k; val = v } ∷ pairs ks vs

abbrev pub pairs_of : List Node → List RangeItem
pairs_of [] = []
pairs_of (n ∷ ns) = pairs n.keys n.values ++ pairs_of ns

-- The pairs up to the first key that is below the maximum; all of them when the maximum is empty.
abbrev pub up_to_stop : Bytes → List RangeItem → List RangeItem
up_to_stop max_key [] = []
up_to_stop max_key (p ∷ ps) = elim (stops_at max_key p.key) [
  | true ↦ []
  | false ↦ p ∷ up_to_stop max_key ps
]

-- How many pairs are still asked for. One is always taken, also when the count is reached or negative.
abbrev pub quota : ℕ → ℕ → ℕ
quota count have = if reaches count have then 1 else count - have

-- The pairs that are there, and those that the scan adds to them.
abbrev pub collected : Bytes → ℕ → List RangeItem → List RangeItem → List RangeItem
collected max_key count found ps =
    found ++ take (quota count (length found)) (up_to_stop max_key ps)

-- The leaves from an id on, each the right sibling of the one before, to the id 0.
abbrev pub Chain : {S : Type 0} → Cache S → S → List Node → ℕ → Type 0
Chain c s [] id = id ≡ 0
Chain c s (n ∷ ns) id =
    (0 < id)
    × (build_page c s id ≡ some n)
    × (n.leaf ≡ true)
    × (length n.values ≡ length n.keys)
    × Chain c s ns n.right_sibling

some_quota : (count have : ℕ) → (m : ℕ) × (quota count have ≡ suc m)
some_quota count have = (quota count have - 1, ground arith)

last_quota : (count have : ℕ) → reaches count (have + 1) ≡ true → quota count have ≡ 1
last_quota count have h = ground (arith, h)

next_quota :
    (count have : ℕ)
    → reaches count (have + 1) ≡ false
    → quota count have ≡ suc (quota count (have + 1))
next_quota count have h = ground (arith, h)

module _ (max_key : Bytes) (count : ℕ) where
  goes_on :
      (p : RangeItem) (ps : List RangeItem)
      → stops_at max_key p.key ≡ false
      → up_to_stop max_key (p ∷ ps) ≡ p ∷ up_to_stop max_key ps
  goes_on p ps h = rw (h, up_to_stop) refl

  collected-stop :
      (found ps : List RangeItem) (p : RangeItem)
      → stops_at max_key p.key ≡ true
      → collected max_key count found (p ∷ ps) ≡ found
  collected-stop found ps p h =
      let stop : up_to_stop max_key (p ∷ ps) ≡ [] = rw (h, up_to_stop) refl in
      let (m, e) = some_quota count (length found) in
      ap (λ l. found ++ take (quota count (length found)) l) stop
      ∙ ap (λ (k : ℕ). found ++ take {A = RangeItem} k []) e
      ∙ append-nil found

  collected-last :
      (found ps : List RangeItem) (p : RangeItem)
      → stops_at max_key p.key ≡ false
      → reaches count (length found + 1) ≡ true
      → collected max_key count found (p ∷ ps) ≡ found ++ (p ∷ [])
  collected-last found ps p h r =
      ap (λ l. found ++ take (quota count (length found)) l) (goes_on p ps h)
      ∙ ap (λ k. found ++ take k (p ∷ up_to_stop max_key ps)) (last_quota count (length found) r)

  collected-next :
      (found ps : List RangeItem) (p : RangeItem)
      → stops_at max_key p.key ≡ false
      → reaches count (length found + 1) ≡ false
      → collected max_key count found (p ∷ ps) ≡ collected max_key count (found ++ (p ∷ [])) ps
  collected-next found ps p h r =
      let more : length found + 1 ≡ length (found ++ (p ∷ [])) =
        omega (arith, length-append found (p ∷ [])) in
      ap (λ l. found ++ take (quota count (length found)) l) (goes_on p ps h)
      ∙ ap (λ k. found ++ take k (p ∷ up_to_stop max_key ps)) (next_quota count (length found) r)
      ∙ ap (λ k. found ++ (p ∷ take (quota count k) (up_to_stop max_key ps))) more
      ∙ sym (
          append_assoc found (p ∷ [])
            (take (quota count (length (found ++ (p ∷ [])))) (up_to_stop max_key ps)))

  -- After one leaf the scan has ended, or it goes on with the pairs that are left.
  abbrev Scans : List Bytes → List Bytes → List RangeItem → List RangeItem → Type 0
  Scans ks vs found rest =
      (scan_keys max_key count ks vs found
        ≡ done
            (record { stops = true; so_far = collected max_key count found (pairs ks vs ++ rest) }))
      ⊎ ((so_far : List RangeItem) × (scan_keys max_key count ks vs found
            ≡ done (record { stops = false; so_far = so_far }))
          × (collected max_key count so_far rest
              ≡ collected max_key count found (pairs ks vs ++ rest)))

  scan_keys-last :
      (k v : Bytes) (ks vs : List Bytes) (found : List RangeItem)
      → stops_at max_key k ≡ false
      → reaches count (length found + 1) ≡ true
      → scan_keys max_key count (k ∷ ks) (v ∷ vs) found
        ≡ done (record { stops = true; so_far = found ++ (record { key = k; val = v } ∷ []) })
  unfolding scan_keys
  scan_keys-last k v ks vs found e r =
      let p : RangeItem = record { key = k; val = v } in
      let r' : reaches count (length (found ++ (p ∷ []))) ≡ true =
        ap (reaches count) (length-append found (p ∷ [])) ∙ r in
      rw (e, r', scan_keys) refl

  scan_keys-next :
      (k v : Bytes) (ks vs : List Bytes) (found : List RangeItem)
      → stops_at max_key k ≡ false
      → reaches count (length found + 1) ≡ false
      → scan_keys max_key count (k ∷ ks) (v ∷ vs) found
        ≡ scan_keys max_key count ks vs (found ++ (record { key = k; val = v } ∷ []))
  unfolding scan_keys
  scan_keys-next k v ks vs found e r =
      let p : RangeItem = record { key = k; val = v } in
      let r' : reaches count (length (found ++ (p ∷ []))) ≡ false =
        ap (reaches count) (length-append found (p ∷ [])) ∙ r in
      rw (e, r', scan_keys) refl

  scan_keys-Scans :
      (ks vs : List Bytes) (found rest : List RangeItem)
      → length vs ≡ length ks
      → Scans ks vs found rest
  unfolding scan_keys
  scan_keys-Scans [] vs found rest h = inr (found, refl, refl)
  scan_keys-Scans (k ∷ ks) [] found rest h = absurd (omega arith)
  scan_keys-Scans (k ∷ ks) (v ∷ vs) found rest h =
      let p : RangeItem = record { key = k; val = v } in
      elim (Bool-cases (stops_at max_key k)) [
        | inl e ↦ inl (
            ground (arith, e)
            ∙ ap (λ l. done (record { stops = true; so_far = l }))
                (sym (collected-stop found (pairs ks vs ++ rest) p e)))
        | inr e ↦ elim (Bool-cases (reaches count (length found + 1))) [
          | inl r ↦ inl (
              scan_keys-last k v ks vs found e r
              ∙ ap (λ l. done (record { stops = true; so_far = l }))
                  (sym (collected-last found (pairs ks vs ++ rest) p e r)))
          | inr r ↦
              let step = scan_keys-next k v ks vs found e r in
              let same = collected-next found (pairs ks vs ++ rest) p e r in
              elim (scan_keys-Scans ks vs (found ++ (p ∷ [])) rest (omega arith)) [
                | inl f ↦
                    inl (step ∙ f ∙ ap (λ l. done (record { stops = true; so_far = l })) (sym same))
                | inr (so_far, f, g) ↦ inr (so_far, step ∙ f, g ∙ sym same)
              ]
        ]
      ]

module _ {S : Type 0} (c : Cache S) (s : S) (max_key : Bytes) (count : ℕ) where
  pub scan_siblings-collected :
      (fuel id : ℕ) (found : List RangeItem) (ns : List Node)
      → Chain c s ns id
      → length ns < fuel
      → scan_siblings c fuel s max_key count found id
        ≡ done (in_range (collected max_key count found (pairs_of ns)))
  unfolding scan_siblings
  scan_siblings-collected zero id found ns chain room = absurd (omega arith)
  scan_siblings-collected (suc fuel) id found [] chain room =
      let (m, e) = some_quota count (length found) in
      let nothing : collected max_key count found [] ≡ found =
        ap (λ (k : ℕ). found ++ take {A = RangeItem} k []) e ∙ append-nil found in
      rw nothing (ground (arith, chain))
  scan_siblings-collected (suc fuel) id found (n ∷ ns) chain room =
      let (some_id, stored, is_leaf, paired, later) = chain in
      elim (scan_keys-Scans max_key count n.keys n.values found (pairs_of ns) paired) [
        | inl e ↦ ground (arith, some_id, stored, is_leaf, e)
        | inr (so_far, e, same) ↦
            let rest = scan_siblings-collected fuel n.right_sibling so_far ns later (omega arith) in
            ground (arith, some_id, stored, is_leaf, e, rest ∙ ap (λ l. done (in_range l)) same)
      ]
