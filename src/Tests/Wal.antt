-- ===== src/Tests/Wal.antt =====
-- pkg/wal and pkg/recovery.
use baobab.Prelude.{
  ℕ, ◌+◌, ◌*◌, ◌≡◌, refl, arith, true, some, List, [], ◌∷◌, ◌++◌, length, replicate,
  length-replicate, append-nil, sym, subst,
}
use baobab.Prelude.Bytes.{Bytes, le_u32}
use baobab.Prelude.Run.{done, panics}
use baobab.Helpers.Lsn.{ok}
use baobab.Wal.Records.{
  wal_page_size, page_header_bytes, BLog, put, header_bytes, body_bytes, check_log_overflow,
}
use baobab.Wal.Writer.{WalWriter, Wal, next_position, add_put_log, items_bytes, load_max_lsn}
use baobab.Wal.Paging.{IsPaged, append-IsPaged}
use baobab.Wal.Consistent.{IsConsistent, lsn_of}
use baobab.Wal.Kept.{add_put_log-IsConsistent}
use baobab.Wal.PageEnd.{page_end_shifts}
use baobab.Wal.Restart.{load_max_lsn-IsPaged}
use baobab.Recovery.Reader.{Index, read_full_log, walk_through_recovery}
use baobab.Recovery.RoundTrip.{IsEntry}
use baobab.Recovery.Replay.{
  entries_bytes, replay, walk_through_recovery-replay, read_full_log-panics,
}

abbrev writer : WalWriter
writer = record { max_page = 0; max_offset = 25 }

-- The first page's header and the first checkpoint.
abbrev log_file : Bytes
log_file = replicate 25 0

log_file-IsPaged : IsPaged log_file writer
log_file-IsPaged = record {
  sized = refl;
  after_header = omega arith;
  in_page = omega arith;
  headers = λ k pos le. absurd (omega arith);
}

abbrev wal : Wal
wal = record { wal_buff = []; wal_writer = writer }

wal-IsConsistent : IsConsistent log_file wal
unfolding items_bytes
wal-IsConsistent = record {
  pending = [];
  formats = refl;
  paged = subst (λ f. IsPaged f writer) (sym (append-nil log_file)) log_file-IsPaged;
}

abbrev long_entry : Bytes
long_entry = replicate 8180 1

append-IsPaged_example :
    (out : Bytes) × (check_log_overflow long_entry 0 25 ≡ done out)
    × IsPaged (log_file ++ out) (next_position writer (length long_entry))
append-IsPaged_example =
    append-IsPaged log_file writer long_entry log_file-IsPaged
      (omega (arith, length-replicate {A = ℕ} 8180 1))
      (λ e. omega (arith, e, length-replicate {A = ℕ} 8180 1)) (omega arith)

add_put_log-IsConsistent_example :
    (w' : Wal) × (add_put_log wal 3 (7 ∷ []) (9 ∷ 9 ∷ []) ≡ some (lsn_of writer 37, w'))
    × IsConsistent log_file w'
add_put_log-IsConsistent_example =
    add_put_log-IsConsistent log_file wal 3 (7 ∷ []) (9 ∷ 9 ∷ []) wal-IsConsistent (omega arith)
      (omega arith) (omega arith) (λ e. omega (arith, e)) (omega arith)

abbrev filling : Bytes
filling = replicate 8167 1

page_end_shifts_example :
    let header = page_header_bytes 1 in
    (check_log_overflow filling 0 25 ≡ done (filling ++ header))
    × (check_log_overflow
          (1 ∷ 2 ∷ [])
          (next_position writer (length filling)).max_page
          (next_position writer (length filling)).max_offset
        ≡ done (header ++ (1 ∷ 2 ∷ [])))
    × (length (log_file ++ ((filling ++ header) ++ (header ++ (1 ∷ 2 ∷ []))))
        ≡ (next_position (next_position writer (length filling)) 2).max_page * wal_page_size
          + (next_position (next_position writer (length filling)) 2).max_offset
          + 8)
page_end_shifts_example =
    page_end_shifts log_file writer filling (1 ∷ 2 ∷ []) log_file-IsPaged
      (omega (arith, length-replicate {A = ℕ} 8167 1))
      (omega (arith, length-replicate {A = ℕ} 8167 1)) (omega arith) (omega arith)

-- A tree that is the list of what was put into it.
abbrev tree : Index (List (Bytes × Bytes))
tree = record {
  insert_value = λ key val lsn s. done (ok (true, (key, val) ∷ s));
  delete_value = λ key lsn s. done (ok (true, s));
}

abbrev logged_put : BLog
logged_put = record {
  header = record { flag = 0; lsn = lsn_of writer 36; page_id = 3; crc = 0; l_size = 36 };
  op_type = put;
  key_size = 1;
  key = 7 ∷ [];
  val_size = 1;
  val = 9 ∷ [];
}

logged_put-IsEntry : IsEntry logged_put
unfolding header_bytes body_bytes le_u32
logged_put-IsEntry = record {
  plain_flag = refl;
  lsn_sized = refl;
  page_given = (omega arith, omega arith);
  sized = (refl, omega arith);
  key_sized = (refl, omega arith);
  some_key = omega arith;
  val_sized = (refl, omega arith);
  puts_value = λ h. omega arith;
  dels_none = λ h. absurd (ground arith);
}

abbrev two_puts : List BLog
two_puts = logged_put ∷ logged_put ∷ []

walk_through_recovery-replay_example :
    walk_through_recovery tree 3
      (log_file ++ entries_bytes two_puts)
      25
      (25 + length (entries_bytes two_puts))
      []
    ≡ replay tree two_puts []
unfolding header_bytes body_bytes le_u32
walk_through_recovery-replay_example =
    walk_through_recovery-replay tree 3 0 25 log_file two_puts []
      (logged_put-IsEntry, (logged_put-IsEntry, tt)) refl (omega arith) (omega arith) (omega arith)
      (omega arith)

read_full_log-panics_example : read_full_log log_file 16000 500 [] ≡ panics
read_full_log-panics_example =
    read_full_log-panics log_file 16000 500 [] 1 (omega arith) (omega arith) (omega arith)
      (omega arith) (omega arith)

load_max_lsn-IsPaged_example : load_max_lsn (length log_file) ≡ some (0, 25)
load_max_lsn-IsPaged_example = load_max_lsn-IsPaged log_file writer log_file-IsPaged (omega arith)
