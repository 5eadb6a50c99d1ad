-- ===== src/Wal/Writer.antt =====
-- pkg/wal/wal_writer.go, wal_buffer.go and wal.go: LSNs, the buffer of entries, and what a flush hands
-- to the writer.
use baobab.Prelude.{
  ℕ, ◌+◌, ◌-◌, ◌*◌, ◌/◌, ◌%◌, ◌^◌, leb, ◌==◌, not, if◌then◌else◌, Option, none, some, List, [], ◌∷◌,
  ◌++◌, length, take, drop,
}
use baobab.Prelude.Bytes.{Bytes, le_u32}
use baobab.Prelude.Run.{Run, done, ◌>>=◌}
use baobab.Prelude.Words.{add_u32, sub_u32, mul_u32}
use baobab.Helpers.Lsn.{read_u32}
use baobab.Wal.Records.{
  wal_page_size, wal_page_header_size, blog_header_size, checkpoint_size, lsn_size, put, del, BLog,
  CheckPoint, blog_bytes, checkpoint_bytes,
}

pub record WalWriter : Type 0 where
  pub max_page : ℕ
  pub max_offset : ℕ

-- A node of the buffer.
pub data Item : Type 0 where
  blog : BLog → Item
  checkpoint : CheckPoint → Item

pub record Wal : Type 0 where
  pub wal_buff : List Item
  pub wal_writer : WalWriter

unfoldable pub next_position : WalWriter → ℕ → WalWriter
next_position wr log_size =
    let new_max_off = add_u32 wr.max_offset log_size in
    if leb wal_page_size new_max_off
    then record {
      max_offset = add_u32 (sub_u32 new_max_off wal_page_size) wal_page_header_size;
      max_page = add_u32 wr.max_page 1;
    }
    else record wr { max_offset = new_max_off }

unfoldable pub assign_lsn : WalWriter → ℕ → Bytes × WalWriter
unfolding next_position
assign_lsn wr log_size =
    (le_u32 wr.max_page ++ (le_u32 wr.max_offset ++ le_u32 log_size), next_position wr log_size)

-- The linked list, from its head to its tail.
unfoldable pub buffer_add : List Item → Item → List Item
buffer_add items x = items ++ (x ∷ [])

-- `none` is the error on an empty key or value.
unfoldable pub add_put_log : Wal → ℕ → Bytes → Bytes → Option (Bytes × Wal)
unfolding assign_lsn buffer_add
add_put_log w page_id key val =
    if length key == 0
    then none
    else if length val == 0
    then none
    else (let l_size = (blog_header_size + 9 + length key + length val) % 2 ^ 32 in
        let (lsn, writer) = assign_lsn w.wal_writer l_size in
        let entry : BLog = record {
          header = record { flag = 0; lsn = lsn; page_id = page_id; crc = 0; l_size = l_size };
          op_type = put;
          key_size = length key % 2 ^ 32;
          key = key;
          val_size = length val % 2 ^ 32;
          val = val;
        } in
        some (lsn, record { wal_buff = buffer_add w.wal_buff (blog entry); wal_writer = writer }))

unfoldable pub add_del_log : Wal → ℕ → Bytes → Option (Bytes × Wal)
unfolding assign_lsn buffer_add
add_del_log w page_id key =
    if length key == 0
    then none
    else (let l_size = (blog_header_size + 5 + length key) % 2 ^ 32 in
        let (lsn, writer) = assign_lsn w.wal_writer l_size in
        let entry : BLog = record {
          header = record { flag = 0; lsn = lsn; page_id = page_id; crc = 0; l_size = l_size };
          op_type = del;
          key_size = length key % 2 ^ 32;
          key = key;
          val_size = 0;
          val = [];
        } in
        some (lsn, record { wal_buff = buffer_add w.wal_buff (blog entry); wal_writer = writer }))

-- Also the LSN of the checkpoint, which the source saves to the config file.
unfoldable pub add_checkpoint : Wal → Bytes → Run (Option (Bytes × Wal))
unfolding assign_lsn buffer_add
add_checkpoint w latest_lsn =
    if not (length latest_lsn == lsn_size)
    then done none
    else (read_u32 (drop 8 latest_lsn) λ s. read_u32 (take 4 latest_lsn) λ page.
        read_u32 (drop 4 latest_lsn) λ redo_offset.
          let (lsn, writer) = assign_lsn w.wal_writer checkpoint_size in
          let cp : CheckPoint = record {
            flag = 128;
            redo_point = add_u32 (add_u32 (mul_u32 page wal_page_size) redo_offset) s;
            checkpoint_lsn = lsn;
          } in
          done (
            some (
              lsn,
              record { wal_buff = buffer_add w.wal_buff (checkpoint cp); wal_writer = writer },
            )))

unfoldable pub item_bytes : Item → Run Bytes
item_bytes (blog b) = blog_bytes b
item_bytes (checkpoint c) = checkpoint_bytes c

unfoldable pub items_bytes : List Item → Run Bytes
unfolding item_bytes
items_bytes [] = done []
items_bytes (x ∷ xs) = item_bytes x >>= λ b. items_bytes xs >>= λ rest. done (b ++ rest)

-- `none` when there is nothing to flush.
unfoldable pub flush_wal : Wal → Run (Option Bytes × Wal)
unfolding items_bytes
flush_wal w = elim w.wal_buff [
  | [] ↦ done (none, w)
  | x ∷ xs ↦ items_bytes (x ∷ xs) >>= λ bytes. done (some bytes, record w { wal_buff = [] })
]

-- The position behind a log file of the given size; `none` is the error on an empty one.
unfoldable pub calculate_page_and_offset : ℕ → Option (ℕ × ℕ)
calculate_page_and_offset wal_size =
    if leb wal_size 0
    then none
    else (let pge = wal_size / wal_page_size in
        some (pge % 2 ^ 32, (wal_size - wal_page_size * pge) % 2 ^ 32))

unfoldable pub load_max_lsn : ℕ → Option (ℕ × ℕ)
unfolding calculate_page_and_offset
load_max_lsn wal_size =
    if leb wal_size 0 then some (0, wal_page_header_size) else calculate_page_and_offset wal_size
