-- ===== src/Wal/Kept.antt =====
-- The operations of the log, against the file, the buffer and the position.
use baobab.Prelude.{
  ℕ, ◌+◌, ◌%◌, ◌^◌, ◌≤◌, ◌<◌, ◌≡◌, ◌≢◌, sym, ap, subst, arith, some, [], ◌∷◌, ◌++◌, length, ltb,
  if◌then◌else◌, length-append,
}
use baobab.Prelude.Bytes.{Bytes, le_u32}
use baobab.Wal.Records.{wal_page_size, BLog, put, body_bytes}
use baobab.Wal.Writer.{WalWriter, blog, Wal, next_position, assign_lsn, buffer_add, add_put_log}
use baobab.Wal.Consistent.{IsConsistent, lsn_of, add_log-IsConsistent}

abbrev put_size : Bytes → Bytes → ℕ
put_size key val = (34 + length key + length val) % 2 ^ 32

abbrev put_entry : WalWriter → ℕ → Bytes → Bytes → BLog
put_entry wr page_id key val = record {
  header = record {
    flag = 0;
    lsn = lsn_of wr (put_size key val);
    page_id = page_id;
    crc = 0;
    l_size = put_size key val;
  };
  op_type = put;
  key_size = length key % 2 ^ 32;
  key = key;
  val_size = length val % 2 ^ 32;
  val = val;
}

value_part :
    (n : ℕ) (val : Bytes) → 0 < n → (if ltb 0 n then le_u32 n ++ val else []) ≡ le_u32 n ++ val
value_part n val pos = ground arith

put_body :
    (wr : WalWriter) (page_id : ℕ) (key val : Bytes)
    → 0 < length val
    → 34 + length key + length val ≤ 8184
    → put_size key val ≡ 25 + length (body_bytes (put_entry wr page_id key val))
unfolding body_bytes le_u32
put_body wr page_id key val pos small = omega (
  arith,
  ap length (ap (λ l. key ++ l) (value_part (length val % 2 ^ 32) val (omega arith))),
  length-append key (le_u32 (length val % 2 ^ 32) ++ val),
)

-- A put of a key and a value that are not empty, of at most 8184 bytes in all with its header, is
-- accepted with the writer's position as its LSN, and keeps the log consistent, unless it would end
-- exactly at the end of a page.
pub add_put_log-IsConsistent :
    (file : Bytes) (w : Wal) (page_id : ℕ) (key val : Bytes)
    → IsConsistent file w
    → 0 < length key
    → 0 < length val
    → 34 + length key + length val ≤ 8184
    → w.wal_writer.max_offset + (34 + length key + length val) ≢ wal_page_size
    → w.wal_writer.max_page + 1 < 2 ^ 32
    → (w' : Wal) × (add_put_log w page_id key val
        ≡ some (lsn_of w.wal_writer (34 + length key + length val), w'))
      × IsConsistent file w'
unfolding add_put_log assign_lsn buffer_add
add_put_log-IsConsistent file w page_id key val ok k v small ends room =
    let b = put_entry w.wal_writer page_id key val in
    let size = put_body w.wal_writer page_id key val v small in
    let plain : put_size key val ≡ 34 + length key + length val = omega arith in
    (
      record {
        wal_buff = w.wal_buff ++ (blog b ∷ []);
        wal_writer = next_position w.wal_writer (put_size key val);
      },
      subst
          (λ n.
            add_put_log w page_id key val
            ≡ some (
              lsn_of w.wal_writer n,
              record {
                wal_buff = w.wal_buff ++ (blog b ∷ []);
                wal_writer = next_position w.wal_writer (put_size key val);
              },
            ))
          plain (ground arith),
      subst
          (λ n. IsConsistent file (record {
            wal_buff = w.wal_buff ++ (blog b ∷ []);
            wal_writer = next_position w.wal_writer n;
          }))
          (sym size)
          (add_log-IsConsistent file w ok b (ap (lsn_of w.wal_writer) size) (omega (arith, size))
            (λ e. ends (omega (arith, e, size))) room),
    )
