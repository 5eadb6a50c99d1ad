-- ===== src/Helpers/Lsn.antt =====
-- pkg/helpers/helpers.go: `MaxLSN`, `GreaterLSN` and `IsMultipage`.
pub mod Order
use baobab.Prelude.{
  ℕ, ◌/◌, ◌%◌, ltb, ◌==◌, not, Bool, true, false, if◌then◌else◌, Option, none, some, take, drop,
  length,
}
use baobab.Prelude.Bytes.{Bytes, u32_at}
use baobab.Prelude.Run.{Run, done, panics}

-- A value, or an error with its message left out.
pub data Checked {ℓ} (A : Type ℓ) : Type ℓ where
  ok : A → Checked A
  failed : Checked A

-- `binary.LittleEndian.Uint32(b)`, which panics on fewer than four bytes.
abbrev pub read_u32 {ℓ} : {B : Type ℓ} → Bytes → (ℕ → Run B) → Run B
read_u32 b k = elim (u32_at b) [ none ↦ panics | some v ↦ k v ]

-- `offsetA > offsetA` is written as it stands in the source.
unfoldable pub max_lsn : Bytes → Bytes → Run (Checked Bytes)
max_lsn lsn_a lsn_b =
    if ltb (length lsn_a) 8
    then done failed
    else if ltb (length lsn_b) 8
    then done failed
    else (read_u32 (take 4 lsn_a) λ page_a. read_u32 (take 4 lsn_b) λ page_b.
        if not (page_a == page_b)
        then (if ltb page_b page_a then done (ok lsn_a) else done (ok lsn_b))
        else (read_u32 (drop 4 lsn_a) λ offset_a. read_u32 (drop 4 lsn_b) λ offset_b.
            if ltb offset_a offset_a
            then done (ok lsn_a)
            else if ltb offset_a offset_b
            then done (ok lsn_b)
            else done (ok lsn_a)))

unfoldable pub greater_lsn : Bytes → Bytes → Run (Checked Bool)
greater_lsn lsn_a lsn_b =
    if ltb (length lsn_a) 8
    then done failed
    else if ltb (length lsn_b) 8
    then done failed
    else (read_u32 (take 4 lsn_a) λ page_a. read_u32 (take 4 lsn_b) λ page_b.
        if not (page_a == page_b)
        then (if ltb page_b page_a then done (ok true) else done (ok false))
        else (read_u32 (drop 4 lsn_a) λ offset_a.
            read_u32 (drop 4 lsn_b)
              λ offset_b. if ltb offset_b offset_a then done (ok true) else done (ok false)))

-- The quotients are of uint32s, so the floor changes nothing; a page size of 0 panics.
unfoldable pub is_multipage : ℕ → ℕ → ℕ → Run (Checked Bool)
is_multipage start_off end_off page_size =
    if ltb end_off start_off
    then done failed
    else if page_size == 0
    then panics
    else done (ok (not (start_off / page_size == end_off / page_size)))
