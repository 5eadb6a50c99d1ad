-- ===== src/Recovery/RoundTrip.antt =====
-- Reading back what the log writes of an entry within a page.
use baobab.Prelude.{
  ℕ, ◌+◌, ◌^◌, ◌<◌, ◌≡◌, refl, sym, ap, ap₂, subst, ◌∙◌, arith, Bool, false, some, [], ◌∷◌, ◌++◌,
  length, replicate, length-append, append_assoc, append-nil, take-append, get_elem?,
  get_elem?-append,
}
use baobab.Prelude.Bytes.{Bytes, le_u32, u32_at, length-le_u32}
use baobab.Prelude.Run.{done}
use baobab.Prelude.Slice.{read_at}
use baobab.Wal.Records.{
  BLogHeader, BLog, OperationType, put, del, header_bytes, body_bytes, lsn_size,
}
use baobab.Wal.Paging.{read_at-append_middle}
use baobab.Recovery.Reader.{LogHeaderMetadata, header, Operation, metadata, operation}

-- The bytes of an entry, where no page header comes between.
abbrev pub plain : BLog → Bytes
plain b = header_bytes b.header ++ body_bytes b

-- A log as the write-ahead log builds it, for a page that has an id.
pub record IsEntry (b : BLog) : Type 0 where
  pub plain_flag : b.header.flag ≡ 0
  pub lsn_sized : length b.header.lsn ≡ 12
  pub page_given : (0 < b.header.page_id) × (b.header.page_id < 2 ^ 32)
  pub sized : (b.header.l_size ≡ length (plain b)) × (b.header.l_size < 2 ^ 32)
  pub key_sized : (b.key_size ≡ length b.key) × (b.key_size < 2 ^ 32)
  pub some_key : 0 < length b.key
  pub val_sized : (b.val_size ≡ length b.val) × (b.val_size < 2 ^ 32)
  pub puts_value : b.op_type ≡ put → 0 < b.val_size
  pub dels_none : b.op_type ≡ del → b.val_size ≡ 0

-- What recovery should make of the entry.
abbrev pub logged : BLog → Operation
logged b = record {
  op_type = b.op_type;
  key = b.key;
  val = b.val;
  lsn = b.header.lsn;
  multi_page = false;
}

abbrev pub described : BLog → LogHeaderMetadata
described b = record {
  lsn = b.header.lsn;
  page_id = b.header.page_id;
  log_size = b.header.l_size;
  multi_page = false;
}

pub header_parts :
    (h : BLogHeader)
    → length h.lsn ≡ 12
    → header_bytes h ≡ (h.flag ∷ h.lsn) ++ (le_u32 h.l_size ++ (le_u32 h.page_id ++ le_u32 h.crc))
unfolding header_bytes
header_parts h len =
    ap (λ l. h.flag ∷ (l ++ (le_u32 h.l_size ++ (le_u32 h.page_id ++ le_u32 h.crc))))
      (take-append h.lsn (replicate lsn_size 0) 12 len)

pub length-header : (h : BLogHeader) → length h.lsn ≡ 12 → length (header_bytes h) ≡ 25
unfolding le_u32
length-header h len = rw (header_parts h len) (
    omega (arith, len, length-append h.lsn (le_u32 h.l_size ++ (le_u32 h.page_id ++ le_u32 h.crc))))

word : (v : ℕ) → v < 2 ^ 32 → u32_at (le_u32 v) ≡ some v
unfolding u32_at le_u32
word v small = ap some (omega arith)

module _ (h : BLogHeader) (len : length h.lsn ≡ 12) where
  lsn_field : read_at (header_bytes h) 1 12 ≡ h.lsn
  lsn_field = rw (header_parts h len) (read_at-append_middle 1 12 (h.flag ∷ []) h.lsn _ refl len)

  size_field : read_at (header_bytes h) 13 4 ≡ le_u32 h.l_size
  size_field = rw (header_parts h len) (
      read_at-append_middle 13 4 (h.flag ∷ h.lsn) (le_u32 h.l_size)
        (le_u32 h.page_id ++ le_u32 h.crc) (omega (arith, len)) (length-le_u32 h.l_size))

  page_field : read_at (header_bytes h) 17 4 ≡ le_u32 h.page_id
  page_field =
      rw
        (
          header_parts h len,
          ← append_assoc (h.flag ∷ h.lsn) (le_u32 h.l_size) (le_u32 h.page_id ++ le_u32 h.crc),
        )
        (read_at-append_middle 17 4 ((h.flag ∷ h.lsn) ++ le_u32 h.l_size) (le_u32 h.page_id)
          (le_u32 h.crc)
          (omega (arith, len, length-append h.lsn (le_u32 h.l_size), length-le_u32 h.l_size))
          (length-le_u32 h.page_id))

pub metadata-header_bytes :
    (b : BLog) → IsEntry b → metadata (header_bytes b.header) false ≡ done (header (described b))
unfolding metadata
metadata-header_bytes b ok =
    let h = b.header in
    ground (
      arith,
      length-header h ok.lsn_sized,
      lsn_field h ok.lsn_sized,
      size_field h ok.lsn_sized,
      page_field h ok.lsn_sized,
      word h.l_size ok.sized.1,
      word h.page_id ok.page_given.1,
    )

body-put :
    (b : BLog)
    → b.op_type ≡ put
    → 0 < b.val_size
    → body_bytes b ≡ 0 ∷ (le_u32 b.key_size ++ (b.key ++ (le_u32 b.val_size ++ b.val)))
unfolding body_bytes
body-put b p v = ground (arith, p)

body-del :
    (b : BLog)
    → b.op_type ≡ del
    → b.val_size ≡ 0
    → body_bytes b ≡ 1 ∷ (le_u32 b.key_size ++ (b.key ++ []))
unfolding body_bytes
body-del b p v = ground (arith, p)

-- The fields of a body that follows 25 bytes.
module _ (hdr : Bytes) (full : length hdr ≡ 25) (op ks : ℕ) (key rest : Bytes) where
  abbrev bytes : Bytes
  bytes = hdr ++ (op ∷ (le_u32 ks ++ (key ++ rest)))

  op_field : get_elem? bytes 25 ≡ some op
  op_field = get_elem?-append hdr (le_u32 ks ++ (key ++ rest)) op 25 full

  key_size_field : read_at bytes 26 4 ≡ le_u32 ks
  key_size_field = rw (← append_assoc hdr (op ∷ []) (le_u32 ks ++ (key ++ rest))) (
      read_at-append_middle 26 4 (hdr ++ (op ∷ [])) (le_u32 ks) (key ++ rest)
        (omega (arith, full, length-append hdr (op ∷ []))) (length-le_u32 ks))

  pub front : Bytes
  front = (hdr ++ (op ∷ [])) ++ le_u32 ks

  length-front : length front ≡ 30
  unfolding front
  length-front = omega (
    arith,
    full,
    length-append hdr (op ∷ []),
    length-append (hdr ++ (op ∷ [])) (le_u32 ks),
    length-le_u32 ks,
  )

  bytes-front : bytes ≡ front ++ (key ++ rest)
  unfolding front
  bytes-front =
      sym (append_assoc hdr (op ∷ []) (le_u32 ks ++ (key ++ rest)))
      ∙ sym (append_assoc (hdr ++ (op ∷ [])) (le_u32 ks) (key ++ rest))

  key_field : read_at bytes 30 (length key) ≡ key
  key_field =
      rw bytes-front (read_at-append_middle 30 (length key) front key rest length-front refl)

  length-bytes : length bytes ≡ 30 + (length key + length rest)
  length-bytes =
      rw bytes-front
        (omega (arith, length-front, length-append front (key ++ rest), length-append key rest))

  rest_field :
      (at width : ℕ) (ws ys zs : Bytes)
      → at ≡ 30 + length key + length ws
      → rest ≡ ws ++ (ys ++ zs)
      → length ys ≡ width
      → read_at bytes at width ≡ ys
  unfolding front
  rest_field at width ws ys zs p q r =
      ap (λ l. read_at l at width)
        (bytes-front
          ∙ sym (append_assoc front key rest)
          ∙ ap (λ l. (front ++ key) ++ l) q
          ∙ sym (append_assoc (front ++ key) ws (ys ++ zs)))
      ∙ read_at-append_middle at width ((front ++ key) ++ ws) ys zs
          (omega (arith, p, length-front, length-append front key, length-append (front ++ key) ws))
          r

operation-put :
    (hdr : Bytes) (full : length hdr ≡ 25) (ks vs : ℕ) (key val lsn : Bytes) (m : Bool)
    → ks ≡ length key
    → ks < 2 ^ 32
    → vs ≡ length val
    → vs < 2 ^ 32
    → operation (hdr ++ (0 ∷ (le_u32 ks ++ (key ++ (le_u32 vs ++ val))))) lsn m
      ≡ done (record { op_type = put; key = key; val = val; lsn = lsn; multi_page = m })
unfolding operation
operation-put hdr full ks vs key val lsn m hk sk hv sv =
    let rest = le_u32 vs ++ val in
    let body = hdr ++ (0 ∷ (le_u32 ks ++ (key ++ (le_u32 vs ++ val)))) in
    let v_bytes : read_at body (30 + ks) 4 ≡ le_u32 vs =
      rest_field hdr full 0 ks key rest (30 + ks) 4 [] (le_u32 vs) val (omega (arith, hk)) refl
        (length-le_u32 vs) in
    let v : read_at body (34 + ks) vs ≡ val =
      rest_field hdr full 0 ks key rest (34 + ks) vs (le_u32 vs) val []
        (omega (arith, hk, length-le_u32 vs)) (ap (λ l. le_u32 vs ++ l) (sym (append-nil val)))
        (sym hv) in
    let k : read_at body 30 ks ≡ key =
      subst (λ n. read_at body 30 n ≡ key) (sym hk) (key_field hdr full 0 ks key rest) in
    ground (
      arith,
      op_field hdr full 0 ks key rest,
      key_size_field hdr full 0 ks key rest,
      k,
      v_bytes,
      v,
      length-bytes hdr full 0 ks key rest,
      length-append (le_u32 vs) val,
      length-le_u32 vs,
      word ks sk,
      word vs sv,
    )

operation-del :
    (hdr : Bytes) (full : length hdr ≡ 25) (ks : ℕ) (key lsn : Bytes) (m : Bool)
    → ks ≡ length key
    → ks < 2 ^ 32
    → operation (hdr ++ (1 ∷ (le_u32 ks ++ (key ++ [])))) lsn m
      ≡ done (record { op_type = del; key = key; val = []; lsn = lsn; multi_page = m })
unfolding operation
operation-del hdr full ks key lsn m hk sk =
    let body = hdr ++ (1 ∷ (le_u32 ks ++ (key ++ []))) in
    let k : read_at body 30 ks ≡ key =
      subst (λ n. read_at body 30 n ≡ key) (sym hk) (key_field hdr full 1 ks key []) in
    ground (
      arith,
      op_field hdr full 1 ks key [],
      key_size_field hdr full 1 ks key [],
      k,
      length-bytes hdr full 1 ks key [],
      word ks sk,
    )

no_bytes : (xs : Bytes) → length xs ≡ 0 → xs ≡ []
no_bytes [] h = refl
no_bytes (x ∷ xs) h = absurd (omega arith)

pub operation-plain :
    (b : BLog) → IsEntry b → operation (plain b) b.header.lsn false ≡ done (logged b)
operation-plain b ok = by_type b.op_type refl
  where
    by_type :
        (t : OperationType)
        → b.op_type ≡ t
        → operation (plain b) b.header.lsn false ≡ done (logged b)
    by_type put t = rw (body-put b t (ok.puts_value t)) (
        operation-put (header_bytes b.header) (length-header b.header ok.lsn_sized) b.key_size
          b.val_size b.key b.val b.header.lsn false ok.key_sized.0 ok.key_sized.1 ok.val_sized.0
          ok.val_sized.1
        ∙ ap (λ o. done (record (logged b) { op_type = o })) (sym t))
    by_type del t = rw (body-del b t (ok.dels_none t)) (
        operation-del (header_bytes b.header) (length-header b.header ok.lsn_sized) b.key_size b.key
          b.header.lsn false ok.key_sized.0 ok.key_sized.1
        ∙ ap₂ (λ o v. done (record (logged b) { op_type = o; val = v })) (sym t)
            (sym (no_bytes b.val (omega (arith, ok.val_sized.0, ok.dels_none t)))))
