-- ===== src/Recovery/Replay.antt =====
-- Reading entries at their places in the file, and walking over them.
use baobab.Prelude.{
  ℕ, zero, suc, ◌+◌, ◌-◌, ◌*◌, ◌%◌, ◌^◌, ◌≤◌, ◌<◌, ◌≡◌, refl, sym, ap, ap₂, ◌∙◌, arith, lt→ltb,
  true, false, some, List, [], ◌∷◌, ◌++◌, length, drop, get_elem?, length-append, length-take,
  append_assoc,
}
use baobab.Prelude.Bytes.{Bytes}
use baobab.Prelude.Run.{Run, done, panics, stuck, ◌>>=◌}
use baobab.Prelude.Slice.{read_at}
use baobab.Helpers.Flags.{bit_is_set}
use baobab.Helpers.Lsn.{ok, is_multipage}
use baobab.Wal.Records.{wal_page_size, BLog, put, del, header_bytes, body_bytes}
use baobab.Wal.Paging.{read_at-append_middle}
use baobab.Recovery.Reader.{
  read_file, header, read_log_header, read_full_log, Index, accepted, reapply_log,
  walk_through_recovery,
}
use baobab.Recovery.RoundTrip.{
  IsEntry, plain, logged, described, length-header, header_parts, metadata-header_bytes,
  operation-plain,
}

same_page :
    (p lo hi : ℕ)
    → p * wal_page_size ≤ lo
    → lo ≤ hi
    → hi < (p + 1) * wal_page_size
    → is_multipage lo hi wal_page_size ≡ done (ok false)
unfolding is_multipage
same_page p lo hi a b c = ground (arith)

read_file-middle :
    (before bytes after : Bytes) (off n : ℕ)
    → length before ≡ off
    → length bytes ≡ n
    → read_file (before ++ (bytes ++ after)) off n ≡ some bytes
read_file-middle before bytes after off n h k = ground (
  arith,
  read_at-append_middle off n before bytes after h k,
  length-append before (bytes ++ after),
  length-append bytes after,
)

-- An entry that lies within page `p` of the file, at `off`.
module _ (before after : Bytes) (b : BLog) (entry : IsEntry b) (p off : ℕ)
    (at : length before ≡ off) (from : p * wal_page_size ≤ off)
    (to : off + b.header.l_size < (p + 1) * wal_page_size)
    (fits : off + b.header.l_size < 2 ^ 32) where
  abbrev file : Bytes
  file = before ++ (plain b ++ after)

  -- Its header has at least 25 bytes.
  long : 25 ≤ b.header.l_size
  long = omega (
    arith,
    entry.sized.0,
    length-append (header_bytes b.header) (body_bytes b),
    length-header b.header entry.lsn_sized,
  )

  first_byte : get_elem? (header_bytes b.header) 0 ≡ some 0
  first_byte = rw (header_parts b.header entry.lsn_sized) (ap some entry.plain_flag)

  header_read : read_file file off 25 ≡ some (header_bytes b.header)
  header_read = rw (append_assoc (header_bytes b.header) (body_bytes b) after) (
      read_file-middle before (header_bytes b.header) (body_bytes b ++ after) off 25 at
        (length-header b.header entry.lsn_sized))

  read_log_header-described : read_log_header file off ≡ done (header (described b))
  unfolding read_log_header bit_is_set
  read_log_header-described =
      let e : (off + 25) % 2 ^ 32 ≡ off + 25 = omega (arith, long) in
      let m : is_multipage off ((off + 25) % 2 ^ 32) wal_page_size ≡ done (ok false) =
        rw e (same_page p off (off + 25) from (omega arith) (omega (arith, long))) in
      ground (arith, m, header_read, first_byte, metadata-header_bytes b entry)

  read_full_log-logged : read_full_log file off b.header.l_size b.header.lsn ≡ done (logged b)
  unfolding read_full_log
  read_full_log-logged =
      let e : (off + b.header.l_size) % 2 ^ 32 ≡ off + b.header.l_size = omega arith in
      let m : is_multipage off ((off + b.header.l_size) % 2 ^ 32) wal_page_size ≡ done (ok false) =
        rw e (same_page p off (off + b.header.l_size) from (omega arith) to) in
      ground (
        arith,
        m,
        long,
        entry.sized.0,
        read_file-middle before (plain b) after off b.header.l_size at (sym entry.sized.0),
        operation-plain b entry,
      )

abbrev pub entries_bytes : List BLog → Bytes
entries_bytes [] = []
entries_bytes (b ∷ bs) = plain b ++ entries_bytes bs

abbrev pub Entries : List BLog → Type 0
Entries [] = Unit
Entries (b ∷ bs) = IsEntry b × Entries bs

-- What a log asks of the tree.
abbrev pub redo : {S : Type 0} → Index S → BLog → S → Run S
redo tree b s = elim b.op_type [
  | put ↦ tree.insert_value b.key b.val b.header.lsn s >>= λ r. accepted r
  | del ↦ tree.delete_value b.key b.header.lsn s >>= λ r. accepted r
]

-- The logged operations, applied one after the other.
pub replay : {S : Type 0} → Index S → List BLog → S → Run S
replay tree [] s = done s
replay tree (b ∷ bs) s = redo tree b s >>= λ s'. replay tree bs s'

reapply_log-redo :
    {S : Type 0} (tree : Index S) (b : BLog) (s : S)
    → IsEntry b
    → reapply_log tree (logged b) s ≡ redo tree b s
unfolding reapply_log
reapply_log-redo tree b s entry =
    ground (arith, entry.some_key, entry.val_sized.0, entry.puts_value)

abbrev pub length_of : List BLog → ℕ
length_of [] = 0
length_of (b ∷ bs) = suc (length_of bs)

walk_end :
    {S : Type 0} (tree : Index S) (fuel : ℕ) (file : Bytes) (off end_off : ℕ) (s : S)
    → end_off ≡ off
    → walk_through_recovery tree (suc fuel) file off end_off s ≡ done s
unfolding walk_through_recovery
walk_end tree fuel file off end_off s e = ground arith

walk_step :
    {S : Type 0} (tree : Index S) (fuel : ℕ) (file : Bytes) (off end_off : ℕ) (s : S) (b : BLog)
    → off < end_off
    → read_log_header file off ≡ done (header (described b))
    → read_full_log file off b.header.l_size b.header.lsn ≡ done (logged b)
    → off + b.header.l_size < 2 ^ 32
    → walk_through_recovery tree (suc fuel) file off end_off s ≡ (
        reapply_log tree (logged b) s >>= λ s'.
        walk_through_recovery tree fuel file (off + b.header.l_size) end_off s')
unfolding walk_through_recovery
walk_step tree fuel file off end_off s b lt h r small =
    let e : (off + b.header.l_size) % 2 ^ 32 ≡ off + b.header.l_size = omega arith in
    rw (lt→ltb off end_off lt, h, r, e) refl

bind_ext :
    {S T : Type 0} (r : Run S) (f g : S → Run T) → ((s : S) → f s ≡ g s) → (r >>= f) ≡ (r >>= g)
bind_ext (done s) f g h = h s
bind_ext panics f g h = refl
bind_ext stuck f g h = refl

-- Logs as the write-ahead log builds them, one after the other within a page of a file of less than
-- 2 ^ 32 bytes, are replayed in their order, each exactly once, up to the end of the file: a put as an
-- insertion of its key and value, a deletion as a deletion of its key, with the log's LSN, whatever the
-- tree does with them, its panics included. No page's LSN is compared. Fuel for one more than the number
-- of logs is enough.
pub walk_through_recovery-replay :
    {S : Type 0} (tree : Index S) (fuel p off : ℕ) (before : Bytes) (bs : List BLog) (s : S)
    → Entries bs
    → length before ≡ off
    → p * wal_page_size ≤ off
    → off + length (entries_bytes bs) < (p + 1) * wal_page_size
    → off + length (entries_bytes bs) < 2 ^ 32
    → length_of bs < fuel
    → walk_through_recovery tree fuel
        (before ++ entries_bytes bs)
        off
        (off + length (entries_bytes bs))
        s
      ≡ replay tree bs s
unfolding replay
walk_through_recovery-replay tree zero p off before bs s es at from to fits more =
    absurd (omega arith)
walk_through_recovery-replay tree (suc fuel) p off before [] s es at from to fits more =
    walk_end tree fuel (before ++ []) off (off + 0) s (omega arith)
walk_through_recovery-replay tree (suc fuel) p off before (b ∷ bs) s (entry, es) at from to fits
      more =
    let end_off = off + length (plain b ++ entries_bytes bs) in
    let size : end_off ≡ off + b.header.l_size + length (entries_bytes bs) =
      omega (arith, entry.sized.0, length-append (plain b) (entries_bytes bs)) in
    let within : off + b.header.l_size < (p + 1) * wal_page_size = omega (arith, size) in
    let small : off + b.header.l_size < 2 ^ 32 = omega (arith, size) in
    walk_step tree fuel (before ++ (plain b ++ entries_bytes bs)) off end_off s b
      (omega (arith, size, long before (entries_bytes bs) b entry p off at from within small))
      (read_log_header-described before (entries_bytes bs) b entry p off at from within small)
      (read_full_log-logged before (entries_bytes bs) b entry p off at from within small) small
    ∙ ap
        (λ (q : Run _). q >>= λ s'.
          walk_through_recovery tree fuel (before ++ (plain b ++ entries_bytes bs))
            (off + b.header.l_size) end_off s')
        (reapply_log-redo tree b s entry)
    ∙ bind_ext (redo tree b s) _ (λ s'. replay tree bs s')
        (λ s'.
          ap₂ (λ f e. walk_through_recovery tree fuel f (off + b.header.l_size) e s')
            (sym (append_assoc before (plain b) (entries_bytes bs))) size
          ∙ walk_through_recovery-replay tree fuel p (off + b.header.l_size) (before ++ plain b) bs
              s' es (omega (arith, at, entry.sized.0, length-append before (plain b))) (omega arith)
              (omega (arith, size)) (omega (arith, size)) (omega arith))

other_page :
    (p lo hi : ℕ)
    → lo < (p + 1) * wal_page_size
    → (p + 1) * wal_page_size ≤ hi
    → is_multipage lo hi wal_page_size ≡ done (ok true)
unfolding is_multipage
other_page p lo hi a b = ground (arith)

length-read_at : (file : Bytes) (off width : ℕ) → length (read_at file off width) ≤ width
unfolding read_at
length-read_at file off width = omega (arith, length-take width (drop off file))

-- A log that crosses the end of a page other than the first makes the recovery panic, whatever the file
-- holds.
pub read_full_log-panics :
    (file : Bytes) (start l_size : ℕ) (lsn : Bytes) (p : ℕ)
    → 1 ≤ p
    → p * wal_page_size < start
    → start < (p + 1) * wal_page_size
    → (p + 1) * wal_page_size ≤ start + l_size
    → start + l_size + wal_page_size < 2 ^ 32
    → read_full_log file start l_size lsn ≡ panics
unfolding read_full_log
read_full_log-panics file start l_size lsn p pos from to across fits =
    let e : (start + l_size) % 2 ^ 32 ≡ start + l_size = omega arith in
    let m : is_multipage start ((start + l_size) % 2 ^ 32) wal_page_size ≡ done (ok true) =
      rw e (other_page p start (start + l_size) to across) in
    let w : (l_size + 8) % 2 ^ 32 ≡ l_size + 8 = omega arith in
    let idx : (l_size + 2 ^ 32 - ((start + l_size) % 2 ^ 32 + 2 ^ 32 - wal_page_size) % 2 ^ 32)
          % 2 ^ 32
        ≡ 2 ^ 32 + wal_page_size - start =
      omega arith in
    ground (
      arith,
      m,
      w,
      idx,
      length-read_at file start (l_size + 8),
      length-read_at file start ((l_size + 8) % 2 ^ 32),
    )
