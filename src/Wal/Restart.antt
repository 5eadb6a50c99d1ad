-- ===== src/Wal/Restart.antt =====
-- The position that a new writer loads from the size of the log file.
use baobab.Prelude.{ℕ, ◌+◌, ◌-◌, ◌*◌, ◌/◌, ◌%◌, ◌^◌, ◌<◌, ◌≡◌, arith, some, length}
use baobab.Prelude.Bytes.{Bytes}
use baobab.Wal.Records.{wal_page_size}
use baobab.Wal.Writer.{WalWriter, calculate_page_and_offset, load_max_lsn}
use baobab.Wal.Paging.{IsPaged}

calculate_page_and_offset-sum :
    (size page off : ℕ)
    → size ≡ page * wal_page_size + off
    → 0 < off
    → off < wal_page_size
    → page < 2 ^ 32
    → calculate_page_and_offset size ≡ some (page, off)
unfolding calculate_page_and_offset
calculate_page_and_offset-sum size page off sum pos within small =
    let p : size / wal_page_size % 2 ^ 32 ≡ page = omega arith in
    let o : (size - wal_page_size * (size / wal_page_size)) % 2 ^ 32 ≡ off = omega arith in
    ground (arith, p, o)

-- When the file is in step with the writer, a new writer loads exactly the page and the offset at which
-- the old one stood.
pub load_max_lsn-IsPaged :
    (file : Bytes) (wr : WalWriter)
    → IsPaged file wr
    → wr.max_page < 2 ^ 32
    → load_max_lsn (length file) ≡ some (wr.max_page, wr.max_offset)
unfolding load_max_lsn
load_max_lsn-IsPaged file wr p small =
    let c =
      calculate_page_and_offset-sum (length file) wr.max_page wr.max_offset p.sized
        (omega (arith, p.after_header)) p.in_page small in
    ground (arith, c, p.sized, p.after_header)
