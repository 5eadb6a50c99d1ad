-- ===== src/TinyLfu/Sketch/Counts.antt =====
-- What the sketch counts.
use baobab.Prelude.{
  ℕ, ◌+◌, ◌^◌, ◌≤◌, ◌<◌, ◌≡◌, ◌≢◌, refl, sym, ap, subst, ◌∙◌, arith, ◌⊎◌, inl, inr, some, List, [],
  ◌∷◌, length, get_elem?, set, length-set, get_elem?_total, get_elem?_bound, get_elem?-set_self,
  get_elem?-set_ne,
}
use baobab.Prelude.Run.{done}
use baobab.TinyLfu.Sketch.{add_u64, bump_rows}

-- Every row has a cell at its index, of at least `n`.
abbrev pub Cells : List (List ℕ) → List ℕ → ℕ → Type 0
Cells [] [] n = Unit
Cells (r ∷ rows) [] n = ⊥
Cells [] (v ∷ vs) n = ⊥
Cells (r ∷ rows) (v ∷ vs) n = ((x : ℕ) × (get_elem? r v ≡ some x) × (n ≤ x)) × Cells rows vs n

-- Every row is `w` wide and its cells are at most `top`.
abbrev pub Rows : ℕ → ℕ → List (List ℕ) → Type 0
Rows w top [] = Unit
Rows w top (r ∷ rows) =
    ((length r ≡ w) × ((i x : ℕ) → get_elem? r i ≡ some x → x ≤ top)) × Rows w top rows

-- One index for every row, within its width.
abbrev pub Indices : ℕ → List (List ℕ) → List ℕ → Type 0
Indices w [] [] = Unit
Indices w (r ∷ rows) [] = ⊥
Indices w [] (v ∷ vs) = ⊥
Indices w (r ∷ rows) (v ∷ vs) = (v < w) × Indices w rows vs

-- The cell at `v` goes up by one, the others stay.
module _ (r : List ℕ) (v x top : ℕ) (rx : get_elem? r v ≡ some x) (bound : x ≤ top)
    (room : top + 1 < 2 ^ 64) where
  abbrev bumped : List ℕ
  bumped = set r v (add_u64 x 1)

  plus_one : add_u64 x 1 ≡ x + 1
  plus_one = omega arith

  at_bumped : get_elem? bumped v ≡ some (x + 1)
  at_bumped = get_elem?-set_self r v (add_u64 x 1) (get_elem?_bound r v rx) ∙ ap some plus_one

  cell_after :
      (j y : ℕ)
      → get_elem? r j ≡ some y
      → (z : ℕ) × (get_elem? bumped j ≡ some z) × (y ≤ z) × (z ≤ y + 1)
  cell_after j y ry = elim (same_or_not v j) [
    | inl e ↦
        let xy : x ≡ y = some_injective (sym rx ∙ ap (get_elem? r) e ∙ ry) in
        (
          x + 1,
          subst (λ k. get_elem? bumped k ≡ some (x + 1)) e at_bumped,
          omega arith,
          omega arith,
        )
    | inr ne ↦ (y, get_elem?-set_ne r (add_u64 x 1) ne ∙ ry, omega arith, omega arith)
  ]
    where
      same_or_not : (a b : ℕ) → (a ≡ b) ⊎ (a ≢ b)
      same_or_not a b = ground arith

      some_injective : {a b : ℕ} → some a ≡ some b → a ≡ b
      some_injective h = cc

  bumped_bound :
      ((i y : ℕ) → get_elem? r i ≡ some y → y ≤ top)
      → (i z : ℕ) → get_elem? bumped i ≡ some z
      → z ≤ top + 1
  bumped_bound all i z rz =
      let inside : i < length r =
        subst (λ n. i < n) (length-set r v (add_u64 x 1)) (get_elem?_bound bumped i rz) in
      let (y, ry) = get_elem?_total r i inside in
      let (z', rz', lo, hi) = cell_after i y ry in
      let zz : z ≡ z' = some_injective (sym rz ∙ rz') in omega (arith, zz, hi, all i y ry)
    where
      some_injective : {a b : ℕ} → some a ≡ some b → a ≡ b
      some_injective h = cc

-- What bumping does to all rows.
pub record Bumped (w top : ℕ) (rows : List (List ℕ)) (is : List ℕ) (rows' : List (List ℕ))
    : Type 0 where
  pub ran : bump_rows rows is ≡ done rows'
  pub shaped : Rows w (top + 1) rows'
  pub still : (js : List ℕ) → Indices w rows js → Indices w rows' js
  pub kept : (js : List ℕ) (n : ℕ) → Cells rows js n → Cells rows' js n
  pub more : (n : ℕ) → Cells rows is n → Cells rows' is (n + 1)

pub bump_rows-Bumped :
    (w top : ℕ) (rows : List (List ℕ)) (is : List ℕ)
    → Rows w top rows
    → Indices w rows is
    → top + 1 < 2 ^ 64
    → (rows' : List (List ℕ)) × Bumped w top rows is rows'
unfolding bump_rows
bump_rows-Bumped w top [] [] shape ix room = (
  [],
  record { ran = refl; shaped = tt; still = λ js h. h; kept = λ js n h. h; more = λ n h. tt },
)
bump_rows-Bumped w top [] (v ∷ vs) shape ix room = absurd ix
bump_rows-Bumped w top (r ∷ rows) [] shape ix room = absurd ix
bump_rows-Bumped w top (r ∷ rows) (v ∷ vs) ((wide, low), shape) (lt, ix) room =
    let (x, rx) = get_elem?_total r v (omega (arith, wide)) in
    let (rows', b) = bump_rows-Bumped w top rows vs shape ix room in
    let bound = low v x rx in
    let r' = set r v (add_u64 x 1) in
    (
      r' ∷ rows',
      record {
        ran = ground (arith, rx, b.ran);
        shaped = (
          (length-set r v (add_u64 x 1) ∙ wide, bumped_bound r v x top rx bound room low),
          b.shaped,
        );
        still = still_here r' rows' b;
        kept = kept_here r' rows' b (cell_after r v x top rx bound room);
        more = λ n ((y, ry, le), rest).
            ((x + 1, at_bumped r v x top rx bound room, ground (arith, rx, ry)), b.more n rest);
      },
    )
  where
    still_here :
        (r' : List ℕ) (rows' : List (List ℕ))
        → Bumped w top rows vs rows'
        → (js : List ℕ) → Indices w (r ∷ rows) js
        → Indices w (r' ∷ rows') js
    still_here r' rows' b [] h = h
    still_here r' rows' b (j ∷ js) h = (h.0, b.still js h.1)

    kept_here :
        (r' : List ℕ) (rows' : List (List ℕ))
        → Bumped w top rows vs rows'
        → ((j y : ℕ)
            → get_elem? r j ≡ some y
            → (z : ℕ) × (get_elem? r' j ≡ some z) × (y ≤ z) × (z ≤ y + 1))
        → (js : List ℕ) (n : ℕ) → Cells (r ∷ rows) js n
        → Cells (r' ∷ rows') js n
    kept_here r' rows' b after [] n h = h
    kept_here r' rows' b after (j ∷ js) n ((y, ry, le), rest) =
        let (z, rz, lo, hi) = after j y ry in ((z, rz, omega arith), b.kept js n rest)
