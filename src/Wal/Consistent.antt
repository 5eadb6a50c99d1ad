-- ===== src/Wal/Consistent.antt =====
-- The whole log: the file, the entries waiting in the buffer, and the writer's position.
use baobab.Prelude.{
  ℕ, ◌+◌, ◌^◌, ◌≤◌, ◌<◌, ◌≡◌, ◌≢◌, refl, sym, ap, subst, ◌∙◌, arith, inl, inr, some, List, [], ◌∷◌,
  ◌++◌, length, drop, length-append, append_assoc, append-nil,
}
use baobab.Prelude.Bytes.{Bytes, le_u32, u32_at}
use baobab.Prelude.Run.{done, ◌>>=◌, done-injective, Run-cases}
use baobab.Wal.Records.{
  wal_page_size, BLog, BLogHeader, header_bytes, body_bytes, blog_bytes, check_log_overflow,
}
use baobab.Wal.Writer.{WalWriter, Item, blog, Wal, next_position, item_bytes, items_bytes}
use baobab.Wal.Paging.{IsPaged, append-IsPaged}

-- Once the waiting entries are written behind the file, it is paged up to the writer's position.
pub record IsConsistent (file : Bytes) (w : Wal) : Type 0 where
  pub pending : Bytes
  pub formats : items_bytes w.wal_buff ≡ done pending
  pub paged : IsPaged (file ++ pending) w.wal_writer

abbrev pub lsn_of : WalWriter → ℕ → Bytes
lsn_of wr n = le_u32 wr.max_page ++ (le_u32 wr.max_offset ++ le_u32 n)

page_of_header :
    (h : BLogHeader) (wr : WalWriter) (n : ℕ)
    → h.lsn ≡ lsn_of wr n
    → wr.max_page < 2 ^ 32
    → u32_at (drop 1 (header_bytes h)) ≡ some wr.max_page
unfolding header_bytes le_u32 u32_at
page_of_header h wr n eq small = rw eq (ap some (omega arith))

offset_of_header :
    (h : BLogHeader) (wr : WalWriter) (n : ℕ)
    → h.lsn ≡ lsn_of wr n
    → wr.max_offset < 2 ^ 32
    → u32_at (drop 5 (header_bytes h)) ≡ some wr.max_offset
unfolding header_bytes le_u32 u32_at
offset_of_header h wr n eq small = rw eq (ap some (omega arith))

-- A log whose LSN the writer assigned is written at the writer's position.
pub blog_bytes-assigned :
    (b : BLog) (wr : WalWriter) (n : ℕ)
    → b.header.lsn ≡ lsn_of wr n
    → wr.max_page < 2 ^ 32
    → wr.max_offset < 2 ^ 32
    → blog_bytes b
      ≡ check_log_overflow (header_bytes b.header ++ body_bytes b) wr.max_page wr.max_offset
unfolding blog_bytes
blog_bytes-assigned b wr n h hp ho =
    ground (arith, page_of_header b.header wr n h hp, offset_of_header b.header wr n h ho)

pub length-header_bytes :
    (h : BLogHeader) (wr : WalWriter) (n : ℕ) → h.lsn ≡ lsn_of wr n → length (header_bytes h) ≡ 25
unfolding header_bytes le_u32
length-header_bytes h wr n eq = rw eq refl

items_bytes-add :
    (items : List Item) (x : Item) (a b : Bytes)
    → items_bytes items ≡ done a
    → item_bytes x ≡ done b
    → items_bytes (items ++ (x ∷ [])) ≡ done (a ++ b)
unfolding items_bytes
items_bytes-add [] x a b h k = rw k (ap done (append-nil b ∙ ap (λ l. l ++ b) (done-injective h)))
items_bytes-add (y ∷ ys) x a b h k = elim (Run-cases (item_bytes y)) [
  | inl (c, first) ↦ elim (Run-cases (items_bytes ys)) [
    | inl (d, rest) ↦
        let whole : c ++ d ≡ a = done-injective (rw (first, rest) at h) in
        rw (first, items_bytes-add ys x d b rest k)
          (ap done (sym (append_assoc c d b) ∙ ap (λ l. l ++ b) whole))
    | inr other ↦ absurd (other a (λ r. done (c ++ r)) (rw first at h))
  ]
  | inr other ↦ absurd (other a (λ r. items_bytes ys >>= λ rest. done (r ++ rest)) h)
]

-- A log with the writer's LSN, of the size that the LSN states.
module _ (file : Bytes) (w : Wal) (ok : IsConsistent file w) (b : BLog)
    (lsn_given : b.header.lsn ≡ lsn_of w.wal_writer (25 + length (body_bytes b)))
    (small : 25 + length (body_bytes b) ≤ 8184)
    (ends : w.wal_writer.max_offset + (25 + length (body_bytes b)) ≢ wal_page_size)
    (room : w.wal_writer.max_page + 1 < 2 ^ 32) where
  logged_size : length (header_bytes b.header ++ body_bytes b) ≡ 25 + length (body_bytes b)
  logged_size = omega (
    arith,
    length-append (header_bytes b.header) (body_bytes b),
    length-header_bytes b.header w.wal_writer _ lsn_given,
  )

  pub add_log-IsConsistent : IsConsistent file (record {
    wal_buff = w.wal_buff ++ (blog b ∷ []);
    wal_writer = next_position w.wal_writer (25 + length (body_bytes b));
  })
  unfolding item_bytes
  add_log-IsConsistent =
      let d = header_bytes b.header ++ body_bytes b in
      let (out, formatted, p) =
        append-IsPaged (file ++ ok.pending) w.wal_writer d ok.paged (omega (arith, logged_size))
          (λ e. ends (omega (arith, e, logged_size))) room in
      record {
        pending = ok.pending ++ out;
        formats = items_bytes-add w.wal_buff (blog b) ok.pending out ok.formats (
            blog_bytes-assigned b w.wal_writer _ lsn_given (omega arith)
              (omega (arith, ok.paged.in_page))
            ∙ formatted);
        paged =
            subst (λ n. IsPaged (file ++ (ok.pending ++ out)) (next_position w.wal_writer n))
              logged_size
              (subst (λ f. IsPaged f (next_position w.wal_writer (length d)))
                (append_assoc file ok.pending out) p);
      }
