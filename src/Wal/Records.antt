-- ===== src/Wal/Records.antt =====
-- pkg/wal/wal.go: logs, checkpoints and the headers of the log file's pages, as bytes.
use baobab.Prelude.{
  ℕ, ◌+◌, ◌/◌, ltb, leb, if◌then◌else◌, [], ◌∷◌, ◌++◌, length, take, drop, replicate,
}
use baobab.Prelude.Bytes.{Bytes, le_u32}
use baobab.Prelude.Run.{Run, done, panics}
use baobab.Prelude.Words.{add_u32, sub_u32, mul_u32}
use baobab.Helpers.Lsn.{read_u32}

abbrev pub wal_page_size : ℕ
wal_page_size = 8192

abbrev pub wal_page_header_size : ℕ
wal_page_header_size = 8

abbrev pub blog_header_size : ℕ
blog_header_size = 25

abbrev pub checkpoint_size : ℕ
checkpoint_size = 17

abbrev pub lsn_size : ℕ
lsn_size = 12

abbrev pub wal_magic_no : ℕ
wal_magic_no = 65544

pub data OperationType : Type 0 where
  put del : OperationType

abbrev pub op_byte : OperationType → ℕ
op_byte put = 0
op_byte del = 1

pub record BLogHeader : Type 0 where
  pub flag : ℕ
  pub lsn : Bytes
  pub page_id : ℕ
  pub crc : ℕ
  pub l_size : ℕ

-- A log always has a header here; the source panics on a nil one, which it never builds.
pub record BLog : Type 0 where
  pub header : BLogHeader
  pub op_type : OperationType
  pub key_size : ℕ
  pub key : Bytes
  pub val_size : ℕ
  pub val : Bytes

pub record CheckPoint : Type 0 where
  pub flag : ℕ
  pub redo_point : ℕ
  pub checkpoint_lsn : Bytes

unfoldable pub page_header_bytes : ℕ → Bytes
page_header_bytes page_id = le_u32 wal_magic_no ++ le_u32 page_id

-- `copy(hdr[1:13], lsn)` into zeroed bytes.
unfoldable pub header_bytes : BLogHeader → Bytes
header_bytes h =
    h.flag
    ∷ (take lsn_size (h.lsn ++ replicate lsn_size 0)
        ++ (le_u32 h.l_size ++ (le_u32 h.page_id ++ le_u32 h.crc)))

-- Go lets a slice end behind its length, within its capacity; the model panics there already. An
-- offset within a page never leads there.
unfoldable pub check_log_overflow : Bytes → ℕ → ℕ → Run Bytes
check_log_overflow log_data page offset =
    if ltb (offset + length log_data) wal_page_size
    then (if leb offset wal_page_header_size
        then done (page_header_bytes page ++ log_data)
        else done log_data)
    else (let idx = sub_u32 (mul_u32 wal_page_size (add_u32 (offset / wal_page_size) 1)) offset in
        if leb idx (length log_data)
        then done (take idx log_data ++ (page_header_bytes (add_u32 page 1) ++ drop idx log_data))
        else panics)

-- What follows the header: the operation, the key, and the value where there is one.
unfoldable pub body_bytes : BLog → Bytes
body_bytes b =
    op_byte b.op_type
    ∷ (le_u32 b.key_size
        ++ (b.key ++ (if ltb 0 b.val_size then le_u32 b.val_size ++ b.val else [])))

-- The page and the offset are read back from the header.
unfoldable pub blog_bytes : BLog → Run Bytes
blog_bytes b =
    let hdr = header_bytes b.header in
    read_u32 (drop 1 hdr)
      λ page. read_u32 (drop 5 hdr) λ off. check_log_overflow (hdr ++ body_bytes b) page off

unfoldable pub checkpoint_bytes : CheckPoint → Run Bytes
checkpoint_bytes c = read_u32 (take 4 c.checkpoint_lsn) λ page.
    read_u32 (drop 4 c.checkpoint_lsn)
      λ off. check_log_overflow (c.flag ∷ (le_u32 c.redo_point ++ c.checkpoint_lsn)) page off
