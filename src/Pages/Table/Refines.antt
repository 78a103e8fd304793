-- ===== src/Pages/Table/Refines.antt =====
-- A table in pages, of moodeng-core/src/page_table.rs, against the table in memory, of
-- moodeng-core/src/storage.rs: `TableBackend` has both, and its callers see no difference.
use mathlib.Core.Path.{subst}
use moodeng_sql.Prelude.{
  ℕ, ◌≤◌, ◌≡◌, refl, sym, ap, ◌∙◌, inl, inr, none, some, leb, if◌then◌else◌, nat_key, arith,
  Bool-cases, dec_eq, ite, suc_u64,
}
use moodeng_sql.Prelude.Map
use moodeng_sql.Prelude.Map.{Map, lookup-insert, lookup-remove}
use moodeng_sql.Error.{ok}
use moodeng_sql.Types.{Row}
use moodeng_sql.Storage.Table as Memory
use moodeng_sql.Storage.Table.{TableData}
use moodeng_sql.Storage.Table.Laws.{get-insert, get-apply_insert}
use moodeng_sql.Pages.Cache.{LruCache}
use moodeng_sql.Pages.Table.{
  PageBody, PageCodecs, PageTable, page_id, write_header, put_row, insert, apply_insert, get,
}
use moodeng_sql.Pages.Table.Stored.{page_at, page_at-blank}
use moodeng_sql.Pages.Table.Kept.{IsValid, Becomes, unchanged}
use moodeng_sql.Pages.Table.Steps.{write_header-Becomes, load_page_lem}
use moodeng_sql.Pages.Table.Rows.{page_of, row_in, view, HasRoom, put_row-Becomes, view-with_body}

module _ {V : Type 0} (c : PageCodecs V) where
  -- The table in pages is sound, and has the rows and the next number of the table in memory.
  pub record Represents (pt : PageTable V) (t : TableData V) : Type 0 where
    pub valid : IsValid c pt
    pub next_id : pt.next_id ≡ t.next_id
    pub rows : (id : ℕ) → view c pt id ≡ Memory.get id t

  -- A page that the table does not have yet has no row.
  pub view-past :
      (pt : PageTable V) (id : ℕ)
      → IsValid c pt
      → pt.page_count ≤ page_of c pt id
      → view c pt id ≡ none
  unfolding Map.lookup
  view-past pt id v le =
      let blank =
        (page_at-blank c pt.mmap (page_of c pt id)
          (λ i up. v.file.blank i (omega (arith, le, up)))).1 in
      ap (λ r. row_in c r id) blank

  pub with_cache-Represents :
      (pt : PageTable V) (t : TableData V) (cache : LruCache (PageBody V))
      → Represents pt t
      → IsValid c (record pt { cache = cache })
      → Represents (record pt { cache = cache }) t
  with_cache-Represents pt t cache r v = record { valid = v; next_id = r.next_id; rows = r.rows }

  -- A read of a row gives what the table in memory gives, and changes the cache at most.
  pub get-Represents :
      (id : ℕ) (pt : PageTable V) (t : TableData V)
      → Represents pt t
      → let (r, pt') = get c id pt in (r ≡ ok (Memory.get id t)) × Represents pt' t
  unfolding get
  get-Represents id pt t r = elim (Bool-cases (leb pt.page_count (page_of c pt id))) [
    | inl e ↦ rw e (ap ok (sym (view-past pt id r.valid (ground (arith, e))) ∙ r.rows id), r)
    | inr e ↦
        let (body, there) = r.valid.readable (page_of c pt id) in
        let (cache, loaded, v) = load_page_lem c (page_of c pt id) pt body r.valid there in
        let found : Map.lookup id body.rows ≡ Memory.get id t =
          ap (λ x. row_in c x id) (sym there) ∙ r.rows id in
        let whole : get c id pt ≡ (ok (Map.lookup id body.rows), record pt { cache = cache }) =
          ground (arith, e, loaded) in
        subst (λ x. (x.0 ≡ ok (Memory.get id t)) × Represents x.1 t) (sym whole)
          (ap ok found, with_cache-Represents pt t cache r v)
  ]

  view-unchanged :
      (pt pt' : PageTable V)
      → Becomes c pt (unchanged c pt) pt'
      → (id : ℕ) → view c pt' id ≡ view c pt id
  view-unchanged pt pt' b id =
      ap (λ q. row_in c (page_at c pt'.mmap q) id) (ap (λ n. page_id id n) b.rows_per_page)
      ∙ ap (λ r. row_in c r id) (b.pages (page_of c pt id))

  -- The table after a row was put and the header written.
  record HasPut (pt : PageTable V) (row_id : ℕ) (row : Row V) (pt' : PageTable V) : Type 0 where
    valid : IsValid c pt'
    next_id : pt'.next_id ≡ pt.next_id
    rows : (id : ℕ) → view c pt' id ≡ ite (dec_eq row_id id) (some row) (view c pt id)

  put_row-HasPut :
      (row_id : ℕ) (row : Row V) (pt : PageTable V)
      → IsValid c pt
      → HasRoom c pt row_id row
      → ((put_row c row_id row pt).0 ≡ ok tt)
        × HasPut pt row_id row (write_header c (put_row c row_id row pt).1)
  put_row-HasPut row_id row pt v room =
      let (body, there) = v.readable (page_of c pt row_id) in
      let new : PageBody V = record { rows = Map.insert row_id row body.rows } in
      let (done, b) = put_row-Becomes c row_id row pt body v room there in
      let put : PageTable V = (put_row c row_id row pt).1 in
      let h = write_header-Becomes c put b.valid in
      (
        done,
        record {
          valid = h.valid;
          next_id = h.next_id ∙ b.next_id;
          rows = λ id.
              view-unchanged put (write_header c put) h id
              ∙ view-with_body c pt put row_id body new (some row) b there
                  (λ j. lookup-insert row_id j row body.rows) id;
        },
      )

  -- INSERT of a row for which there is room.
  pub insert-Represents :
      (row : Row V) (pt : PageTable V) (t : TableData V)
      → Represents pt t
      → HasRoom c pt pt.next_id row
      → let (r, pt') = insert c row pt in
        (r ≡ ok (Memory.insert row t).0) × Represents pt' (Memory.insert row t).1
  unfolding insert Memory.insert
  insert-Represents row pt t r room =
      let bumped : PageTable V = record pt { next_id = suc_u64 pt.next_id } in
      let v : IsValid c bumped = record {
        file = r.valid.file;
        coherent = r.valid.coherent;
        bounded = r.valid.bounded;
        readable = r.valid.readable;
      } in
      let (done, p) =
        put_row-HasPut pt.next_id row bumped v
          (record { numbered = room.numbered; fits = room.fits }) in
      let after : PageTable V = write_header c (put_row c pt.next_id row bumped).1 in
      let whole : insert c row pt ≡ (ok pt.next_id, after) = ground (arith, done) in
      let result : Represents after (Memory.insert row t).1 = record {
        valid = p.valid;
        next_id = p.next_id ∙ ap suc_u64 r.next_id;
        rows = λ id. ground (arith, p.rows id, r.rows id, r.next_id, get-insert row t id);
      } in
      subst (λ x. (x.0 ≡ ok t.next_id) × Represents x.1 (Memory.insert row t).1) (sym whole)
        (ap ok r.next_id, result)

  -- A row that comes back under a known number, where there is room for it.
  pub apply_insert-Represents :
      (row_id : ℕ) (row : Row V) (pt : PageTable V) (t : TableData V)
      → Represents pt t
      → HasRoom c pt row_id row
      → let (r, pt') = apply_insert c row_id row pt in
        (r ≡ ok tt) × Represents pt' (Memory.apply_insert row_id row t)
  unfolding apply_insert Memory.apply_insert
  apply_insert-Represents row_id row pt t r room =
      let next : ℕ = if leb pt.next_id row_id then suc_u64 row_id else pt.next_id in
      let bumped : PageTable V = record pt { next_id = next } in
      let v : IsValid c bumped = record {
        file = r.valid.file;
        coherent = r.valid.coherent;
        bounded = r.valid.bounded;
        readable = r.valid.readable;
      } in
      let (done, p) =
        put_row-HasPut row_id row bumped v
          (record { numbered = room.numbered; fits = room.fits }) in
      let after : PageTable V = write_header c (put_row c row_id row bumped).1 in
      let whole : apply_insert c row_id row pt ≡ (ok tt, after) = ground (arith, done) in
      let result : Represents after (Memory.apply_insert row_id row t) = record {
        valid = p.valid;
        next_id = p.next_id ∙ ap (λ n. if leb n row_id then suc_u64 row_id else n) r.next_id;
        rows = λ id. ground (arith, p.rows id, r.rows id, get-apply_insert row_id row t id);
      } in
      subst (λ x. (x.0 ≡ ok tt) × Represents x.1 (Memory.apply_insert row_id row t)) (sym whole)
        (refl, result)
