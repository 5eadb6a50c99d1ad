-- ===== src/Helpers/Lsn/Order.antt =====
-- `MaxLSN` agrees with `GreaterLSN`, and `IsMultipage` finds the page boundaries.
use baobab.Prelude.{
  ℕ, suc, ◌*◌, ◌/◌, ◌<◌, ◌≤◌, ◌≡◌, ◌≢◌, refl, arith, Bool, true, if◌then◌else◌, some, [], ◌∷◌,
  length, take, drop, length-take, length-drop, not, ltb, ◌==◌, ◌↔◌,
}
use baobab.Prelude.Run.{done}
use baobab.Prelude.Bytes.{Bytes, u32_at}
use baobab.Helpers.Lsn.{ok, max_lsn, greater_lsn, is_multipage}
use native.Mathlib.Nat.{div-add-mod, mod-lt}
use native.Mathlib.Decide.{dec_le, dec_lt}

u32_at_total : (b : Bytes) → 4 ≤ length b → (v : ℕ) × (u32_at b ≡ some v)
unfolding u32_at
u32_at_total (a ∷ b ∷ c ∷ d ∷ rest) h = (_, refl)
u32_at_total [] h = absurd (omega arith)
u32_at_total (a ∷ []) h = absurd (omega arith)
u32_at_total (a ∷ b ∷ []) h = absurd (omega arith)
u32_at_total (a ∷ b ∷ c ∷ []) h = absurd (omega arith)

u32_at_parts :
    (b : Bytes)
    → 8 ≤ length b
    → (p : ℕ) × (o : ℕ) × (u32_at (take 4 b) ≡ some p) × (u32_at (drop 4 b) ≡ some o)
u32_at_parts b h =
    let (p, ep) = u32_at_total (take 4 b) (omega (arith, length-take 4 b)) in
    let (o, eo) = u32_at_total (drop 4 b) (omega (arith, length-drop 4 b)) in (p, o, ep, eo)

-- On two LSNs of eight bytes or more neither function fails or panics, and `MaxLSN` returns the
-- second one exactly when `GreaterLSN` says that it is greater than the first.
pub max_lsn-greater_lsn :
    (a b : Bytes)
    → 8 ≤ length a
    → 8 ≤ length b
    → (g : Bool) × (greater_lsn b a ≡ done (ok g)) × (max_lsn a b ≡ done (ok (if g then b else a)))
unfolding max_lsn greater_lsn
max_lsn-greater_lsn a b ha hb =
    let (pa, oa, epa, eoa) = u32_at_parts a ha in
    let (pb, ob, epb, eob) = u32_at_parts b hb in
    ((if not (pb == pa) then ltb pa pb else ltb oa ob), ground arith, ground arith)

mul_mono : (a b p : ℕ) → a ≤ b → a * p ≤ b * p
mul_mono a b p h = grind arith

boundary_between : (s e ps : ℕ) → 0 < ps → s / ps < e / ps → (s < e / ps * ps) × (e / ps * ps ≤ e)
boundary_between s e ps pos h =
    omega (
      arith,
      div-add-mod s ps,
      div-add-mod e ps,
      mod-lt s pos,
      mul_mono (suc (s / ps)) (e / ps) ps h,
    )

no_boundary : (s e ps k : ℕ) → 0 < ps → s / ps ≡ e / ps → s < k * ps → k * ps ≤ e → ⊥
no_boundary s e ps k pos same lo hi = elim (dec_le k (s / ps)) [
  | yes below ↦ omega (arith, div-add-mod s ps, mul_mono k (s / ps) ps below)
  | no above ↦
      omega (arith, div-add-mod e ps, mod-lt e pos, mul_mono (suc (e / ps)) k ps (omega arith))
]

quotients_differ : (s e ps : ℕ) → not (s / ps == e / ps) ≡ true → s ≤ e → 0 < ps → s / ps < e / ps
quotients_differ s e ps t h pos =
    let differ : s / ps ≢ e / ps = ground arith in
    elim (dec_lt (s / ps) (e / ps)) [
      | yes lt ↦ lt
      | no ge ↦ absurd (
          omega (
            arith,
            div-add-mod s ps,
            div-add-mod e ps,
            mod-lt e pos,
            mul_mono (suc (e / ps)) (s / ps) ps (omega arith),
          ))
    ]

differ_by_boundary :
    (s e ps k : ℕ) → 0 < ps → s < k * ps → k * ps ≤ e → not (s / ps == e / ps) ≡ true
differ_by_boundary s e ps k pos lo hi =
    ground (arith, λ (q : s / ps ≡ e / ps). no_boundary s e ps k pos q lo hi)

-- A range of bytes is reported as crossing pages exactly when a multiple of the page size lies
-- behind its start and not behind its end.
pub is_multipage-boundary :
    (s e ps : ℕ)
    → s ≤ e
    → 0 < ps
    → (b : Bool) × (is_multipage s e ps ≡ done (ok b))
      × ((b ≡ true) ↔ ((k : ℕ) × (s < k * ps) × (k * ps ≤ e)))
unfolding is_multipage
is_multipage-boundary s e ps h pos = (
  not (s / ps == e / ps),
  ground arith,
  (
    λ t.
        let lt : s / ps < e / ps = quotients_differ s e ps t h pos in
        (e / ps, (boundary_between s e ps pos lt).0, (boundary_between s e ps pos lt).1),
    λ (k, lo, hi). differ_by_boundary s e ps k pos lo hi,
  ),
)
