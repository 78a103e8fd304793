-- ===== src/Pages/Table.antt =====
-- `PageTable` of moodeng-core/src/page_table.rs. The file, once opened, is always mapped, and file
-- operations succeed; an index out of the mapping, which would panic, does not occur (the theorems
-- on Stored).
pub mod Stored
pub mod Kept
pub mod Steps
pub mod Rows
pub mod Refines
pub mod Replaced
pub mod History
use Prim.Native.String.{◌++◌ as concat_text}
use moodeng_sql.Prelude.{
  ℕ, zero, suc, String, Bool, true, false, ◌+◌, ◌-◌, ◌*◌, ◌/◌, ◌%◌, ◌^◌, ◌≤◌, ◌<◌, ◌≡◌, ◌⊎◌, inl,
  inr, Option, none, some, List, [], ◌∷◌, ◌++◌, ltb, leb, ◌==◌, if◌then◌else◌, nat_key, suc_u64,
  max,
}
use moodeng_sql.Prelude.Text.{to_decimal}
use moodeng_sql.Prelude.Map
use moodeng_sql.Prelude.Map.{Map}
use moodeng_sql.Prelude.Lists.{length}
use moodeng_sql.Prelude.Bytes.{Bytes}
use moodeng_sql.Prelude.Sort.{sort_by_key}
use moodeng_sql.Error.{Result, ok, err, storage}
use moodeng_sql.Action.{Action, pure, raise, gets, modify, ◌>>=◌, ◌>>◌}
use moodeng_sql.Types.{Row}
use moodeng_sql.Wal.Defs.{Bincode}
use moodeng_sql.Pages.Mapped.{Mmap, read_at, write_at, fill_at, set_len, to_le_bytes, from_le_bytes}
use moodeng_sql.Pages.Cache
use moodeng_sql.Pages.Cache.{LruCache}

abbrev pub default_rows_per_page : ℕ
default_rows_per_page = 16

abbrev pub page_slot_bytes : ℕ
page_slot_bytes = 65536

pub record PageBody (V : Type 0) : Type 0 where
  pub rows : Map ℕ (Row V)

pub record PageFileHeader : Type 0 where
  pub next_id : ℕ
  pub page_count : ℕ

-- `size_of::<PageFileHeader>()`
abbrev pub header_bytes : ℕ
header_bytes = 16

-- bincode at the two types of the file. A map is written behind its length, so that no page is
-- written as no bytes; a header is written as its two numbers.
pub record PageCodecs (V : Type 0) : Type 0 where
  pub pages : Bincode (PageBody V)
  pub some_bytes : (body : PageBody V) → 0 < length (pages.serialize body)
  pub headers : Bincode PageFileHeader
  pub header_fits : (header : PageFileHeader) → length (headers.serialize header) ≤ 16

pub record PageTable (V : Type 0) : Type 0 where
  pub rows_per_page : ℕ
  pub next_id : ℕ
  pub page_count : ℕ
  pub cache : LruCache (PageBody V)
  pub mmap : Mmap

-- The cast to `u32` and the `u64` below 1 wrap around.
unfoldable pub page_id : ℕ → ℕ → ℕ
page_id row_id rows_per_page = ((row_id + (2 ^ 64 - 1)) % 2 ^ 64) / rows_per_page % 2 ^ 32

abbrev pub offset : ℕ → ℕ
offset page_id = header_bytes + page_slot_bytes * page_id

abbrev pub file_size_for_pages : ℕ → ℕ
file_size_for_pages page_count = header_bytes + page_slot_bytes * max page_count 1

module _ {V : Type 0} where
  abbrev pub no_rows : PageBody V
  no_rows = record { rows = [] }

  abbrev pub cache_len : PageTable V → ℕ
  cache_len pt = Cache.len pt.cache

  abbrev pub on_disk_page_count : PageTable V → ℕ
  on_disk_page_count pt = pt.page_count

  -- `open` where there is no file.
  abbrev pub open_new : ℕ → ℕ → PageTable V
  open_new max_pages rows_per_page = record {
    rows_per_page = rows_per_page;
    next_id = 1;
    page_count = 0;
    cache = Cache.new max_pages;
    mmap = record { len = file_size_for_pages 0; byte = λ i. 0 };
  }

module _ {V : Type 0} (c : PageCodecs V) where
  -- `read_header` of a mapped file.
  abbrev pub read_header : Mmap → Result PageFileHeader
  read_header m =
      if ltb m.len header_bytes
      then ok (record { next_id = 1; page_count = 0 })
      else (elim (c.headers.deserialize (read_at m.byte 0 header_bytes)) [
        | inl message ↦ err (storage message)
        | inr header ↦ ok header
      ])

  -- `open` on a file, which is lengthened where it is too short for its pages.
  unfoldable pub open_file : ℕ → ℕ → Mmap → Result (PageTable V)
  open_file max_pages rows_per_page m = elim (read_header m) [
    | err e ↦ err e
    | ok header ↦
        let min_size = file_size_for_pages (max header.page_count 1) in
        ok (record {
          rows_per_page = rows_per_page;
          next_id = header.next_id;
          page_count = header.page_count;
          cache = Cache.new max_pages;
          mmap = if ltb m.len min_size then set_len min_size m else m;
        })
  ]

  unfoldable pub write_header : PageTable V → PageTable V
  write_header pt =
      let encoded =
        c.headers.serialize (record { next_id = pt.next_id; page_count = pt.page_count }) in
      record pt { mmap = record pt.mmap { byte = write_at pt.mmap.byte 0 encoded } }

  abbrev pub slot_len : (ℕ → ℕ) → ℕ → ℕ
  slot_len byte page_id = from_le_bytes (read_at byte (offset page_id) 4)

  abbrev pub decode_page : Bytes → Result (PageBody V)
  decode_page bytes = elim (c.pages.deserialize bytes) [
    | inl message ↦ err (storage message)
    | inr body ↦ ok body
  ]

  -- What `load_page` finds in the file: none where there is nothing to cache.
  unfoldable pub read_slot : Mmap → ℕ → Option (Result (PageBody V))
  read_slot m page_id =
      let len = slot_len m.byte page_id in
      if ltb m.len (offset page_id + 4)
      then none
      else (if len == 0
          then none
          else (if ltb m.len (offset page_id + 4 + len)
              then none
              else some (decode_page (read_at m.byte (offset page_id + 4) len))))

  unfoldable pub load_page : ℕ → Action (PageTable V) (PageBody V)
  unfolding Cache.get read_slot Cache.insert
  load_page page_id pt =
      let (found, cache) = Cache.get page_id pt.cache in
      elim found [
        | some body ↦ (ok body, record pt { cache = cache })
        | none ↦ elim (read_slot pt.mmap page_id) [
          | none ↦ (ok no_rows, record pt { cache = cache })
          | some (err e) ↦ (err e, record pt { cache = cache })
          | some (ok body) ↦ (ok body, record pt { cache = Cache.insert page_id body cache })
        ]
      ]

  -- The bytes behind a page's write: its slot is cleared, then its length and its body.
  abbrev pub with_page : (ℕ → ℕ) → ℕ → Bytes → ℕ → ℕ
  with_page byte page_id encoded =
      write_at
        (write_at (fill_at byte (offset page_id) page_slot_bytes) (offset page_id)
          (to_le_bytes (length encoded)))
        (offset page_id + 4) encoded

  unfoldable pub store_page : ℕ → PageBody V → Action (PageTable V) (Unit {0})
  unfolding Cache.insert
  store_page page_id body pt =
      let encoded = c.pages.serialize body in
      if leb pt.page_count page_id
      then raise (storage (concat_text "page " (concat_text (to_decimal page_id) " out of range")))
          pt
      else (if ltb page_slot_bytes (length encoded + 4)
          then raise (storage "page overflow") pt
          else (
            ok tt,
            record pt {
              mmap = record pt.mmap { byte = with_page pt.mmap.byte page_id encoded };
              cache = Cache.insert page_id body pt.cache;
            },
          ))

  unfoldable pub grow_if_needed : ℕ → PageTable V → PageTable V
  grow_if_needed page_id pt =
      if ltb page_id pt.page_count
      then pt
      else (let new_count = (page_id + 1) % 2 ^ 32 in
          write_header (record pt {
            page_count = new_count;
            mmap = set_len (file_size_for_pages new_count) pt.mmap;
          }))

  unfoldable pub put_row : ℕ → Row V → Action (PageTable V) (Unit {0})
  put_row row_id row = do
    page ← gets (λ pt. page_id row_id pt.rows_per_page)
    modify (grow_if_needed page)
    body ← load_page page
    store_page page (record { rows = Map.insert row_id row body.rows })

  unfoldable pub insert : Row V → Action (PageTable V) ℕ
  insert row = do
    id ← gets (λ pt. pt.next_id)
    modify (λ pt. record pt { next_id = suc_u64 pt.next_id })
    put_row id row
    modify write_header
    pure id

  unfoldable pub apply_insert : ℕ → Row V → Action (PageTable V) (Unit {0})
  apply_insert row_id row = do
    modify (λ pt. if leb pt.next_id row_id then record pt { next_id = suc_u64 row_id } else pt)
    put_row row_id row
    modify write_header

  unfoldable pub get : ℕ → Action (PageTable V) (Option (Row V))
  get row_id pt =
      let page = page_id row_id pt.rows_per_page in
      if leb pt.page_count page
      then (ok none, pt)
      else ((do body ← load_page page; pure (Map.lookup row_id body.rows)) pt)

  unfoldable pub update : ℕ → Row V → Action (PageTable V) Bool
  update row_id row pt =
      let page = page_id row_id pt.rows_per_page in
      if leb pt.page_count page
      then (ok false, pt)
      else ((do
        body ← load_page page
        (if Map.contains_key row_id body.rows
            then (do store_page page (record { rows = Map.insert row_id row body.rows }); pure true)
            else pure false))
          pt)

  unfoldable pub delete : ℕ → Action (PageTable V) Bool
  delete row_id pt =
      let page = page_id row_id pt.rows_per_page in
      if leb pt.page_count page
      then (ok false, pt)
      else ((do
        body ← load_page page
        (if Map.contains_key row_id body.rows
            then (do store_page page (record { rows = Map.remove row_id body.rows }); pure true)
            else pure false))
          pt)

  -- `for page_id in from..from + n`, with the rows of each page.
  unfoldable pub scan_pages : ℕ → ℕ → Action (PageTable V) (List (ℕ × Row V))
  scan_pages from zero = pure []
  scan_pages from (suc n) = do
    body ← load_page from
    rows ← scan_pages (suc from) n
    pure (body.rows ++ rows)

  unfoldable pub scan : Action (PageTable V) (List (ℕ × Row V))
  scan = do
    count ← gets (λ pt. pt.page_count)
    rows ← scan_pages 0 count
    pure (sort_by_key (λ e. e.0) rows)

  -- A page that cannot be read counts as empty.
  unfoldable pub count_pages : ℕ → ℕ → PageTable V → ℕ × PageTable V
  count_pages from zero pt = (0, pt)
  count_pages from (suc n) pt =
      let (r, pt') = load_page from pt in
      let (rest, pt'') = count_pages (suc from) n pt' in
      (elim r as (λ _. ℕ) [ ok body ↦ length body.rows + rest | err _ ↦ rest ], pt'')

  unfoldable pub row_count : PageTable V → ℕ × PageTable V
  row_count pt = count_pages 0 pt.page_count pt

  -- `for (row_id, row) in rows`
  unfoldable pub put_rows : Map ℕ (Row V) → Action (PageTable V) (Unit {0})
  put_rows [] = pure tt
  put_rows ((row_id, row) ∷ rows) = do put_row row_id row; put_rows rows

  unfoldable pub import_rows : ℕ → Map ℕ (Row V) → Action (PageTable V) (Unit {0})
  import_rows next_id rows = do
    modify (λ pt. record pt { next_id = next_id })
    put_rows rows
    modify write_header

  -- The header is written, and the mapping flushed.
  unfoldable pub flush_all : PageTable V → PageTable V
  flush_all pt = write_header pt
