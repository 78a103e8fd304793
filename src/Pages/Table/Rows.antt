-- ===== src/Pages/Table/Rows.antt =====
-- The rows of a table in pages, and the operations that change them, of
-- moodeng-core/src/page_table.rs.
use mathlib.Core.Path.{subst}
use moodeng_sql.Prelude.{
  ℕ, ◌+◌, ◌^◌, ◌≤◌, ◌<◌, ◌≡◌, ◌≢◌, sym, ap, ◌∙◌, Option, none, nat_key, arith, dec_eq, ite, if_pos,
  if_neg,
}
use moodeng_sql.Prelude.Map
use moodeng_sql.Prelude.Map.{Map, lookup-insert, lookup-remove}
use moodeng_sql.Prelude.Lists.{length}
use moodeng_sql.Error.{Result, ok, err}
use moodeng_sql.Types.{Row}
use moodeng_sql.Pages.Table.{
  PageBody, PageCodecs, PageTable, page_slot_bytes, page_id, store_page, grow_if_needed, put_row,
}
use moodeng_sql.Pages.Table.Stored.{page_at}
use moodeng_sql.Pages.Table.Kept.{IsValid, Becomes}
use moodeng_sql.Pages.Table.Steps.{grow-Becomes, load_page_lem, store_page-Becomes}

module _ {V : Type 0} (c : PageCodecs V) where
  -- The page of a row.
  abbrev pub page_of : PageTable V → ℕ → ℕ
  page_of pt row_id = page_id row_id pt.rows_per_page

  abbrev pub row_in : Result (PageBody V) → ℕ → Option (Row V)
  row_in (ok body) row_id = Map.lookup row_id body.rows
  row_in (err e) row_id = none

  -- The row that the file holds under a number.
  abbrev pub view : PageTable V → ℕ → Option (Row V)
  view pt row_id = row_in (page_at c pt.mmap (page_of pt row_id)) row_id

  abbrev pub FitsSlot : PageBody V → Type 0
  FitsSlot body = length (c.pages.serialize body) + 4 ≤ page_slot_bytes

  -- The pages with one of them replaced.
  abbrev pub with_body : PageTable V → ℕ → PageBody V → ℕ → Result (PageBody V)
  with_body pt p body q = ite (dec_eq p q) (ok body) (page_at c pt.mmap q)

  -- There is room for a row: its page has a number, and still fits its slot with the row.
  pub record HasRoom (pt : PageTable V) (row_id : ℕ) (row : Row V) : Type 0 where
    pub numbered : page_of pt row_id + 1 < 2 ^ 32
    pub fits :
        (body : PageBody V)
        → page_at c pt.mmap (page_of pt row_id) ≡ ok body
        → FitsSlot (record { rows = Map.insert row_id row body.rows })

  pub put_row-Becomes :
      (row_id : ℕ) (row : Row V) (pt : PageTable V) (body : PageBody V)
      → IsValid c pt
      → HasRoom pt row_id row
      → page_at c pt.mmap (page_of pt row_id) ≡ ok body
      → ((put_row c row_id row pt).0 ≡ ok tt)
        × Becomes c pt
            (with_body pt (page_of pt row_id) (record { rows = Map.insert row_id row body.rows }))
            (put_row c row_id row pt).1
  unfolding put_row
  put_row-Becomes row_id row pt body v room there =
      let p : ℕ = page_of pt row_id in
      let grown : PageTable V = grow_if_needed c p pt in
      let new : PageBody V = record { rows = Map.insert row_id row body.rows } in
      let (g, reached) = grow-Becomes c p pt v room.numbered in
      let (cache, loaded, v') = load_page_lem c p grown body g.valid (g.pages p ∙ there) in
      let (done, s) =
        store_page-Becomes c p new (record grown { cache = cache }) v' reached
          (room.fits body there) in
      let whole : put_row c row_id row pt ≡ store_page c p new (record grown { cache = cache }) =
        ground (arith, loaded) in
      (
        ap (λ x. x.0) whole ∙ done,
        subst (λ x. Becomes c pt (with_body pt p new) x.1) (sym whole)
            (record {
              valid = s.valid;
              pages = λ q. s.pages q ∙ ap (λ r. ite (dec_eq p q) (ok new) r) (g.pages q);
              next_id = s.next_id ∙ g.next_id;
              rows_per_page = s.rows_per_page ∙ g.rows_per_page;
            }),
      )

  -- The rows after one page was replaced by what differs from it in one row.
  pub view-with_body :
      (pt pt' : PageTable V) (row_id : ℕ) (body new : PageBody V) (o : Option (Row V))
      → Becomes c pt (with_body pt (page_of pt row_id) new) pt'
      → page_at c pt.mmap (page_of pt row_id) ≡ ok body
      → ((id : ℕ) → Map.lookup id new.rows ≡ ite (dec_eq row_id id) o (Map.lookup id body.rows))
      → (id : ℕ) → view pt' id ≡ ite (dec_eq row_id id) o (view pt id)
  view-with_body pt pt' row_id body new o b there changed id =
      let rpp : page_of pt' id ≡ page_of pt id = ap (λ n. page_id id n) b.rows_per_page in
      let page : page_at c pt'.mmap (page_of pt' id)
          ≡ with_body pt (page_of pt row_id) new (page_of pt id) =
        ap (λ q. page_at c pt'.mmap q) rpp ∙ b.pages (page_of pt id) in
      ap (λ r. row_in r id) page ∙ elim (dec_eq (page_of pt row_id) (page_of pt id)) [
        | yes same ↦
            let old : page_at c pt.mmap (page_of pt id) ≡ ok body =
              ap (λ q. page_at c pt.mmap q) (sym same) ∙ there in
            ap (λ r. row_in r id)
              (if_pos (dec_eq (page_of pt row_id) (page_of pt id)) same (ok new) _)
            ∙ (changed id ∙ ap (λ r. ite (dec_eq row_id id) o (row_in r id)) (sym old))
        | no other ↦
            let ne : row_id ≢ id = λ e. other (ap (λ j. page_of pt j) e) in
            ap (λ r. row_in r id)
              (if_neg (dec_eq (page_of pt row_id) (page_of pt id)) other (ok new) _)
            ∙ sym (if_neg (dec_eq row_id id) ne o (view pt id))
      ]
