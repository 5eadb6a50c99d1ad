-- ===== src/Wal/PageEnd.antt =====
-- An entry that ends exactly at the end of a page.
use baobab.Prelude.{
  ℕ, ◌+◌, ◌-◌, ◌*◌, ◌^◌, ◌≤◌, ◌<◌, ◌≡◌, ap, ◌∙◌, arith, ◌++◌, length, length-append,
}
use baobab.Prelude.Bytes.{Bytes}
use baobab.Prelude.Run.{done}
use baobab.Wal.Records.{wal_page_size, page_header_bytes, check_log_overflow}
use baobab.Wal.Writer.{WalWriter, next_position}
use baobab.Wal.Paging.{
  IsPaged, crossing_at_end, length-page_header_bytes, next_crosses, next_stays, overflow_crosses,
}

second_header :
    (e : Bytes) (page : ℕ)
    → 8 + length e < wal_page_size
    → check_log_overflow e page 8 ≡ done (page_header_bytes page ++ e)
unfolding check_log_overflow
second_header e page h = ground arith

-- When an entry of at most 8184 bytes, at the end of a paged file where the writer stands, ends exactly at the end of a page, and the next one fits into the
-- page after it, the header of that page is written both behind the first entry and before the second, and the
-- file is then eight bytes longer than the writer's position says.
pub page_end_shifts :
    (file : Bytes) (wr : WalWriter) (d e : Bytes)
    → IsPaged file wr
    → length d ≤ 8184
    → wr.max_offset + length d ≡ wal_page_size
    → 8 + length e < wal_page_size
    → wr.max_page + 1 < 2 ^ 32
    → let wr₁ = next_position wr (length d) in
      let wr₂ = next_position wr₁ (length e) in
      let header = page_header_bytes (wr.max_page + 1) in
      (check_log_overflow d wr.max_page wr.max_offset ≡ done (d ++ header))
      × (check_log_overflow e wr₁.max_page wr₁.max_offset ≡ done (header ++ e))
      × (length (file ++ ((d ++ header) ++ (header ++ e)))
          ≡ wr₂.max_page * wal_page_size + wr₂.max_offset + 8)
page_end_shifts file wr d e p small ends fits room =
    let at : WalWriter = record { max_page = wr.max_page + 1; max_offset = 8 } in
    let header = page_header_bytes (wr.max_page + 1) in
    let there : next_position wr (length d) ≡ at =
      next_crosses wr (length d) p.in_page small (omega arith) room
      ∙ ap (λ k. record { max_page = wr.max_page + 1; max_offset = k })
          {x = wr.max_offset + length d - wal_page_size + 8} (omega arith) in
    (
      overflow_crosses d wr.max_page wr.max_offset p.in_page (omega arith) room
          ∙ ap done (crossing_at_end d wr.max_page wr.max_offset ends),
      rw there (second_header e (wr.max_page + 1) fits),
      rw (there, next_stays at (length e) fits)
          (omega (
            arith,
            p.sized,
            length-append file ((d ++ header) ++ (header ++ e)),
            length-append (d ++ header) (header ++ e),
            length-append d header,
            length-append header e,
            length-page_header_bytes (wr.max_page + 1),
          )),
    )
