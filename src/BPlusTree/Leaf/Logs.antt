-- ===== src/BPlusTree/Leaf/Logs.antt =====
-- The log of an edit in a leaf: it is written unless the caller brings an LSN, and it panics on an empty
-- key or value.
use baobab.Prelude.{
  ℕ, ◌<◌, ◌≡◌, refl, arith, ◌⊎◌, inl, inr, Option, Option-cases, none, some, length,
}
use native.Mathlib.Decide.{dec_lt}
use baobab.Prelude.Bytes.{Bytes}
use baobab.Prelude.Run.{done, panics}
use baobab.Wal.Writer.{Wal, add_put_log, add_del_log}
use baobab.BPlusTree.Leaf.{log_put, log_del}

-- The LSN that the caller brought, or else that of the new log.
abbrev pub IsLogged : Wal → Bytes → Option (Bytes × Wal) → Bytes × Wal → Type 0
IsLogged w lsn added logged =
    ((0 < length lsn) × (logged ≡ (lsn, w))) ⊎ ((length lsn ≡ 0) × (added ≡ some logged))

put_refused :
    (w : Wal) (page_id : ℕ) (key val : Bytes)
    → add_put_log w page_id key val ≡ none
    → (length key ≡ 0) ⊎ (length val ≡ 0)
unfolding add_put_log
put_refused w page_id key val h = ground (arith, h)

del_refused :
    (w : Wal) (page_id : ℕ) (key : Bytes) → add_del_log w page_id key ≡ none → length key ≡ 0
unfolding add_del_log
del_refused w page_id key h = ground (arith, h)

pub log_put-cases :
    (w : Wal) (lsn : Bytes) (page_id : ℕ) (key val : Bytes)
    → ((logged : Bytes × Wal) × (log_put w lsn page_id key val ≡ done logged)
        × IsLogged w lsn (add_put_log w page_id key val) logged)
      ⊎ ((log_put w lsn page_id key val ≡ panics)
          × (length lsn ≡ 0)
          × ((length key ≡ 0) ⊎ (length val ≡ 0)))
unfolding log_put
log_put-cases w lsn page_id key val = elim (dec_lt 0 (length lsn)) [
  | yes given ↦ inl ((lsn, w), ground (arith, given), inl (given, refl))
  | no not_given ↦
      let no_lsn : length lsn ≡ 0 = omega (arith, not_given) in
      elim (Option-cases (add_put_log w page_id key val)) [
        | inl e ↦ inr (ground (arith, no_lsn, e), no_lsn, put_refused w page_id key val e)
        | inr (logged, e) ↦ inl (logged, ground (arith, no_lsn, e), inr (no_lsn, e))
      ]
]

pub log_del-cases :
    (w : Wal) (lsn : Bytes) (page_id : ℕ) (key : Bytes)
    → ((logged : Bytes × Wal) × (log_del w lsn page_id key ≡ done logged)
        × IsLogged w lsn (add_del_log w page_id key) logged)
      ⊎ ((log_del w lsn page_id key ≡ panics) × (length lsn ≡ 0) × (length key ≡ 0))
unfolding log_del
log_del-cases w lsn page_id key = elim (dec_lt 0 (length lsn)) [
  | yes given ↦ inl ((lsn, w), ground (arith, given), inl (given, refl))
  | no not_given ↦
      let no_lsn : length lsn ≡ 0 = omega (arith, not_given) in
      elim (Option-cases (add_del_log w page_id key)) [
        | inl e ↦ inr (ground (arith, no_lsn, e), no_lsn, del_refused w page_id key e)
        | inr (logged, e) ↦ inl (logged, ground (arith, no_lsn, e), inr (no_lsn, e))
      ]
]
