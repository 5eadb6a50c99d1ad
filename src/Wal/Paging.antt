-- ===== src/Wal/Paging.antt =====
-- Where the writer's position stands in the log file.
use baobab.Prelude.{
  ℕ, zero, suc, ◌+◌, ◌-◌, ◌*◌, ◌/◌, ◌%◌, ◌^◌, ◌≤◌, ◌<◌, ◌≡◌, ◌≢◌, refl, sym, ap, subst, ◌∙◌, arith,
  ◌⊎◌, inl, inr, [], ◌∷◌, ◌++◌, length, take, drop, length-append, length-take, length-drop,
  take-append, drop-append, append_assoc, append-nil, take_all, ap₂,
}
use baobab.Prelude.Bytes.{Bytes, le_u32}
use baobab.Prelude.Run.{done}
use baobab.Prelude.Slice.{read_at}
use baobab.Wal.Records.{wal_page_size, page_header_bytes, check_log_overflow}
use baobab.Wal.Writer.{WalWriter, next_position}

-- The file ends where the writer stands, within a page and behind its header, and every page but the
-- first starts with its header.
pub record IsPaged (file : Bytes) (wr : WalWriter) : Type 0 where
  pub sized : length file ≡ wr.max_page * wal_page_size + wr.max_offset
  pub after_header : 8 < wr.max_offset
  pub in_page : wr.max_offset < wal_page_size
  pub headers :
      (k : ℕ) → 0 < k → k ≤ wr.max_page → read_at file (k * wal_page_size) 8 ≡ page_header_bytes k

pub length-page_header_bytes : (k : ℕ) → length (page_header_bytes k) ≡ 8
unfolding page_header_bytes le_u32
length-page_header_bytes k = refl

read_before_end :
    (off width : ℕ) (xs ys : Bytes)
    → off + width ≤ length xs
    → take width (drop off (xs ++ ys)) ≡ take width (drop off xs)
read_before_end zero zero xs ys h = refl
read_before_end zero (suc w) [] ys h = absurd (omega arith)
read_before_end zero (suc w) (x ∷ xs) ys h =
    ap (λ l. x ∷ l) (read_before_end zero w xs ys (omega arith))
read_before_end (suc off) w [] ys h = absurd (omega arith)
read_before_end (suc off) w (x ∷ xs) ys h = read_before_end off w xs ys (omega arith)

pub read_at-append_left :
    (off width : ℕ) (xs ys : Bytes)
    → off + width ≤ length xs
    → read_at (xs ++ ys) off width ≡ read_at xs off width
unfolding read_at
read_at-append_left off width xs ys h = read_before_end off width xs ys h

pub read_at-append_middle :
    (off width : ℕ) (xs ys zs : Bytes)
    → length xs ≡ off
    → length ys ≡ width
    → read_at (xs ++ (ys ++ zs)) off width ≡ ys
unfolding read_at
read_at-append_middle off width xs ys zs h k =
    ap (take width) (drop-append xs (ys ++ zs) off h) ∙ take-append ys zs width k

-- The bytes of an entry that stays within its page, and of one that leaves it.
pub overflow_stays :
    (d : Bytes) (page off : ℕ)
    → 8 < off
    → off + length d < wal_page_size
    → check_log_overflow d page off ≡ done d
unfolding check_log_overflow
overflow_stays d page off h k = ground arith

pub crossing : Bytes → ℕ → ℕ → Bytes
crossing d page off =
    take (wal_page_size - off) d ++ (page_header_bytes (page + 1) ++ drop (wal_page_size - off) d)

drop_all : (l : Bytes) → drop (length l) l ≡ []
drop_all [] = λ i. []
drop_all (x ∷ l) = drop_all l

pub crossing_at_end :
    (d : Bytes) (page off : ℕ)
    → off + length d ≡ wal_page_size
    → crossing d page off ≡ d ++ page_header_bytes (page + 1)
unfolding crossing
crossing_at_end d page off ends =
    let rest : wal_page_size - off ≡ length d = omega (arith, ends) in
    ap (λ n. take n d ++ (page_header_bytes (page + 1) ++ drop n d)) rest
    ∙ ap₂ (λ a b. a ++ (page_header_bytes (page + 1) ++ b)) (take_all (length d) d (omega arith))
        (drop_all d)
    ∙ ap (λ l. d ++ l) (append-nil (page_header_bytes (page + 1)))

index_of_boundary :
    (off : ℕ)
    → off < wal_page_size
    → (wal_page_size * ((off / wal_page_size + 1) % 2 ^ 32) % 2 ^ 32 + 2 ^ 32 - off) % 2 ^ 32
      ≡ wal_page_size - off
index_of_boundary off h = omega arith

pub overflow_crosses :
    (d : Bytes) (page off : ℕ)
    → off < wal_page_size
    → wal_page_size ≤ off + length d
    → page + 1 < 2 ^ 32
    → check_log_overflow d page off ≡ done (crossing d page off)
unfolding check_log_overflow crossing
overflow_crosses d page off h k room =
    let p : (page + 1) % 2 ^ 32 ≡ page + 1 = omega arith in
    let i = index_of_boundary off h in rw (i, p) (ground arith)

pub length-crossing :
    (d : Bytes) (page off : ℕ)
    → off < wal_page_size
    → wal_page_size ≤ off + length d
    → length (crossing d page off) ≡ length d + 8
unfolding crossing
length-crossing d page off h k = omega (
  arith,
  length-append (take (wal_page_size - off) d)
      (page_header_bytes (page + 1) ++ drop (wal_page_size - off) d),
  length-append (page_header_bytes (page + 1)) (drop (wal_page_size - off) d),
  length-page_header_bytes (page + 1),
  length-take (wal_page_size - off) d,
  length-drop (wal_page_size - off) d,
)

pub next_stays :
    (wr : WalWriter) (n : ℕ)
    → wr.max_offset + n < wal_page_size
    → next_position wr n ≡ record wr { max_offset = wr.max_offset + n }
unfolding next_position
next_stays wr n h =
    let p : (wr.max_offset + n) % 2 ^ 32 ≡ wr.max_offset + n = omega arith in rw p (ground arith)

pub next_crosses :
    (wr : WalWriter) (n : ℕ)
    → wr.max_offset < wal_page_size
    → n ≤ 8184
    → wal_page_size ≤ wr.max_offset + n
    → wr.max_page + 1 < 2 ^ 32
    → next_position wr n
      ≡ record { max_page = wr.max_page + 1; max_offset = wr.max_offset + n - wal_page_size + 8 }
unfolding next_position
next_crosses wr n h small k room =
    let p : (wr.max_offset + n) % 2 ^ 32 ≡ wr.max_offset + n = omega arith in
    let q : ((wr.max_offset + n + 2 ^ 32 - wal_page_size) % 2 ^ 32 + 8) % 2 ^ 32
        ≡ wr.max_offset + n - wal_page_size + 8 =
      omega arith in
    let r : (wr.max_page + 1) % 2 ^ 32 ≡ wr.max_page + 1 = omega arith in
    rw (p, r) (ground (arith, q))

module _ (file : Bytes) (wr : WalWriter) (paged : IsPaged file wr) (d : Bytes) where
  append_stays :
      wr.max_offset + length d < wal_page_size
      → IsPaged (file ++ d) (record wr { max_offset = wr.max_offset + length d })
  append_stays h = record {
    sized = omega (arith, paged.sized, length-append file d);
    after_header = omega (arith, paged.after_header);
    in_page = h;
    headers = λ k pos le.
        read_at-append_left (k * wal_page_size) 8 file d
          (omega (arith, paged.sized, paged.after_header))
        ∙ paged.headers k pos le;
  }

  append_crosses :
      length d ≤ 8184
      → wal_page_size < wr.max_offset + length d
      → IsPaged (file ++ crossing d wr.max_page wr.max_offset) (record {
        max_page = wr.max_page + 1;
        max_offset = wr.max_offset + length d - wal_page_size + 8;
      })
  unfolding crossing
  append_crosses small h = record {
    sized = omega (
      arith,
      paged.sized,
      length-append file (crossing d wr.max_page wr.max_offset),
      length-crossing d wr.max_page wr.max_offset paged.in_page (omega arith),
    );
    after_header = omega arith;
    in_page = omega (arith, paged.in_page);
    headers = λ k pos le. elim (last_or_before k) [
      | inl before ↦
          read_at-append_left (k * wal_page_size) 8 file _
            (omega (arith, paged.sized, paged.after_header))
          ∙ paged.headers k pos before
      | inr last ↦ new_header k (omega arith)
    ];
  }
    where
      new_header :
          (k : ℕ)
          → k ≡ wr.max_page + 1
          → read_at (file ++ crossing d wr.max_page wr.max_offset) (k * wal_page_size) 8
            ≡ page_header_bytes k
      new_header k eq =
          ap (λ l. read_at l (k * wal_page_size) 8)
            (sym (
              append_assoc file (take (wal_page_size - wr.max_offset) d)
                (page_header_bytes (wr.max_page + 1) ++ drop (wal_page_size - wr.max_offset) d)))
          ∙ read_at-append_middle (k * wal_page_size) 8
              (file ++ take (wal_page_size - wr.max_offset) d) (page_header_bytes (wr.max_page + 1))
              _
              (omega (
                arith,
                paged.sized,
                paged.in_page,
                length-append file (take (wal_page_size - wr.max_offset) d),
                length-take (wal_page_size - wr.max_offset) d,
              ))
              (length-page_header_bytes (wr.max_page + 1))
          ∙ ap page_header_bytes (sym eq)

      last_or_before : (k : ℕ) → (k ≤ wr.max_page) ⊎ (wr.max_page < k)
      last_or_before k = ground arith

-- An entry of at most 8184 bytes that does not end at the end of a page keeps the file in step with the
-- writer, whether it stays within its page or leaves it.
pub append-IsPaged :
    (file : Bytes) (wr : WalWriter) (d : Bytes)
    → IsPaged file wr
    → length d ≤ 8184
    → wr.max_offset + length d ≢ wal_page_size
    → wr.max_page + 1 < 2 ^ 32
    → (out : Bytes) × (check_log_overflow d wr.max_page wr.max_offset ≡ done out)
      × IsPaged (file ++ out) (next_position wr (length d))
append-IsPaged file wr d p small ends room = elim (side (wr.max_offset + length d)) [
  | inl h ↦ (
    d,
    overflow_stays d wr.max_page wr.max_offset p.after_header h,
    subst (IsPaged (file ++ d)) (sym (next_stays wr (length d) h)) (append_stays file wr p d h),
  )
  | inr h ↦ (
    crossing d wr.max_page wr.max_offset,
    overflow_crosses d wr.max_page wr.max_offset p.in_page (omega arith) room,
    subst (IsPaged (file ++ crossing d wr.max_page wr.max_offset))
        (sym (next_crosses wr (length d) p.in_page small (omega arith) room))
        (append_crosses file wr p d small (omega (arith, ends))),
  )
]
  where
    side : (n : ℕ) → (n < wal_page_size) ⊎ (wal_page_size ≤ n)
    side n = ground arith
