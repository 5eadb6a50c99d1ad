-- ===== src/Recovery/Reader.antt =====
-- pkg/recovery/recovery.go: reading entries of the log file and walking over them. The file's size is the
-- length of the list; logging is left out.
use baobab.Prelude.{
  ℕ, zero, suc, ◌+◌, ◌-◌, ◌/◌, ltb, leb, ◌==◌, ◌&&◌, not, if◌then◌else◌, Bool, true, false, Option,
  none, some, [], ◌++◌, length, take, drop,
}
use baobab.Prelude.Bytes.{Bytes}
use baobab.Prelude.Run.{Run, done, panics, stuck, ◌>>=◌, index}
use baobab.Prelude.Words.{add_u32, sub_u32, mul_u32}
use baobab.Prelude.Slice.{read_at}
use baobab.Helpers.Flags.{bit_is_set}
use baobab.Helpers.Lsn.{Checked, ok, failed, read_u32, is_multipage}
use baobab.Wal.Records.{
  wal_page_size, wal_page_header_size, blog_header_size, checkpoint_size, OperationType, put, del,
}

-- `fd.ReadAt`; `none` is the error on a file that is too short, io.EOF.
abbrev pub read_file : Bytes → ℕ → ℕ → Option Bytes
read_file file off width =
    if leb (off + width) (length file) then some (read_at file off width) else none

-- `b[lo:hi]`, which panics out of range. Go lets `hi` go up to the capacity, which is behind the length
-- by at most the eight bytes of a page header that was cut out; the model panics there already.
abbrev pub slice {ℓ} : {B : Type ℓ} → Bytes → ℕ → ℕ → (Bytes → Run B) → Run B
slice b lo hi k = if leb lo hi && leb hi (length b) then k (read_at b lo (hi - lo)) else panics

-- `append(b[:idx], b[idx+8:]...)`.
abbrev pub cut_header {ℓ} : {B : Type ℓ} → Bytes → ℕ → (Bytes → Run B) → Run B
cut_header b idx k =
    if leb idx (length b) && leb (add_u32 idx wal_page_header_size) (length b)
    then k (take idx b ++ drop (add_u32 idx wal_page_header_size) b)
    else panics

-- `IsMultipage` of an entry, whose error is a panic here.
abbrev pub crosses {ℓ} : {B : Type ℓ} → ℕ → ℕ → (Bool → Run B) → Run B
crosses start end_off k =
    is_multipage start end_off wal_page_size >>= λ r. elim r [ failed ↦ panics | ok b ↦ k b ]

pub record LogHeaderMetadata : Type 0 where
  pub lsn : Bytes
  pub page_id : ℕ
  pub log_size : ℕ
  pub multi_page : Bool

-- The errors are io.EOF and `InvalidLogError`.
pub data HeaderRead : Type 0 where
  header : LogHeaderMetadata → HeaderRead
  is_checkpoint eof : HeaderRead

pub record Operation : Type 0 where
  pub op_type : OperationType
  pub key : Bytes
  pub val : Bytes
  pub lsn : Bytes
  pub multi_page : Bool

-- Where the page header stands in the bytes that are read.
unfoldable pub header_cut : ℕ → ℕ
header_cut off = sub_u32 (mul_u32 wal_page_size (add_u32 (off / wal_page_size) 1)) off

-- The fields of a header whose page header is already cut out.
unfoldable pub metadata : Bytes → Bool → Run HeaderRead
metadata hdr multi = slice hdr 1 13 λ lsn. slice hdr 13 17 λ size_bytes. slice hdr 17 21 λ id_bytes.
    read_u32 size_bytes λ log_size. read_u32 id_bytes λ page_id.
      if page_id == 0
      then panics
      else done (
          header (record { lsn = lsn; page_id = page_id; log_size = log_size; multi_page = multi }))

unfoldable pub read_log_header : Bytes → ℕ → Run HeaderRead
unfolding metadata header_cut
read_log_header file off = crosses off (add_u32 off blog_header_size) λ multi.
    elim (read_file file off
      (if multi then blog_header_size + wal_page_header_size else blog_header_size)) [
        | none ↦ done eof
        | some hdr ↦ index hdr 0 λ flag.
            if bit_is_set flag 7
            then done is_checkpoint
            else if multi
            then cut_header hdr (header_cut off) (λ h. metadata h multi)
            else metadata hdr multi
      ]

-- The operation in the bytes of an entry whose page header is already cut out.
unfoldable pub operation : Bytes → Bytes → Bool → Run Operation
operation b_log lsn multi = index b_log blog_header_size λ op.
    slice b_log (blog_header_size + 1) (blog_header_size + 5) λ k_bytes. read_u32 k_bytes λ k_size.
      let k_off = blog_header_size + 5 in
      slice b_log k_off (k_off + k_size) λ key.
        if op == 0
        then (slice b_log (k_off + k_size) (k_off + k_size + 4) λ v_bytes.
            read_u32 v_bytes λ v_size.
              let v_off = k_off + k_size + 4 in
              slice b_log v_off (v_off + v_size) λ val.
                done
                  (record { op_type = put; key = key; val = val; lsn = lsn; multi_page = multi }))
        else done (record { op_type = del; key = key; val = []; lsn = lsn; multi_page = multi })

unfoldable pub read_full_log : Bytes → ℕ → ℕ → Bytes → Run Operation
unfolding operation
read_full_log file start l_size lsn =
    let end_off = add_u32 start l_size in
    crosses start end_off λ multi.
      elim (read_file file start (if multi then add_u32 l_size wal_page_header_size else l_size)) [
        | none ↦ panics
        | some b_log ↦
            if length b_log == 0
            then panics
            else if multi
            then cut_header b_log (sub_u32 l_size (sub_u32 end_off wal_page_size))
                (λ b. operation b lsn multi)
            else operation b_log lsn multi
      ]

-- What recovery calls of the tree: `InsertValue` and `DeleteValue` for one key. An error, and an answer
-- of false, make recovery panic.
pub record Index (S : Type 0) : Type 0 where
  pub insert_value : Bytes → Bytes → Bytes → S → Run (Checked (Bool × S))
  pub delete_value : Bytes → Bytes → S → Run (Checked (Bool × S))

abbrev pub accepted : {S : Type 0} → Checked (Bool × S) → Run S
accepted failed = panics
accepted (ok (true, s)) = done s
accepted (ok (false, s)) = panics

module _ {S : Type 0} (tree : Index S) where
  unfoldable pub reapply_log : Operation → S → Run S
  reapply_log op s = if length op.key == 0 then panics else elim op.op_type [
    | put ↦
        if length op.val == 0
        then panics
        else tree.insert_value op.key op.val op.lsn s >>= λ r. accepted r
    | del ↦ tree.delete_value op.key op.lsn s >>= λ r. accepted r
  ]

  -- The fuel bounds the entries that are read; a corrupt entry of size 0 keeps the source in place forever.
  unfoldable pub walk_through_recovery : ℕ → Bytes → ℕ → ℕ → S → Run S
  unfolding reapply_log read_log_header read_full_log
  walk_through_recovery zero file curr_off end_off s = stuck
  walk_through_recovery (suc fuel) file curr_off end_off s =
      if not (ltb curr_off end_off)
      then done s
      else (read_log_header file curr_off >>= λ r. elim r [
        | eof ↦ done s
        | is_checkpoint ↦
            walk_through_recovery fuel file (add_u32 curr_off checkpoint_size) end_off s
        | header h ↦ read_full_log file curr_off h.log_size h.lsn >>= λ op.
            reapply_log op s >>= λ s'.
            walk_through_recovery fuel file
              (add_u32 curr_off
                (if op.multi_page then add_u32 h.log_size wal_page_header_size else h.log_size))
              end_off s'
      ])
