-- ===== src/Pages/Table/Replaced.antt =====
-- `update` and `delete` of a table in pages, of moodeng-core/src/page_table.rs, against the table
-- in memory.
use mathlib.Core.Path.{subst}
use moodeng_sql.Prelude.{
  ℕ, Bool, true, false, ◌<◌, ◌≡◌, refl, sym, ap, ◌∙◌, inl, inr, Option, none, some, leb, nat_key,
  arith, Bool-cases, Option-cases, dec_eq, ite,
}
use moodeng_sql.Prelude.Map
use moodeng_sql.Prelude.Map.{Map, lookup-insert, lookup-remove}
use moodeng_sql.Error.{Result, ok}
use moodeng_sql.Types.{Row}
use moodeng_sql.Storage.Table as Memory
use moodeng_sql.Storage.Table.{TableData}
use moodeng_sql.Storage.Table.Laws.{get-update, get-delete}
use moodeng_sql.Pages.Cache.{LruCache}
use moodeng_sql.Pages.Table.{PageBody, PageCodecs, PageTable, store_page, update, delete}
use moodeng_sql.Pages.Table.Stored.{page_at}
use moodeng_sql.Pages.Table.Kept.{IsValid}
use moodeng_sql.Pages.Table.Steps.{load_page_lem, store_page-Becomes}
use moodeng_sql.Pages.Table.Rows.{page_of, row_in, FitsSlot, view-with_body}
use moodeng_sql.Pages.Table.Refines.{Represents, view-past, with_cache-Represents}

module _ {V : Type 0} (c : PageCodecs V) where
  -- The page of a row still fits its slot after the change.
  abbrev pub StillFits : (Map ℕ (Row V) → Map ℕ (Row V)) → PageTable V → ℕ → Type 0
  StillFits change pt id =
      (body : PageBody V)
      → page_at c pt.mmap (page_of c pt id) ≡ ok body
      → FitsSlot c (record { rows = change body.rows })

  -- A page in which one row was changed is stored back.
  stored_back :
      (id : ℕ) (o : Option (Row V)) (pt : PageTable V) (t t' : TableData V)
      (cache : LruCache (PageBody V)) (body new : PageBody V)
      → Represents c pt t
      → IsValid c (record pt { cache = cache })
      → page_of c pt id < pt.page_count
      → page_at c pt.mmap (page_of c pt id) ≡ ok body
      → FitsSlot c new
      → ((j : ℕ) → Map.lookup j new.rows ≡ ite (dec_eq id j) o (Map.lookup j body.rows))
      → t'.next_id ≡ t.next_id
      → ((j : ℕ) → Memory.get j t' ≡ ite (dec_eq id j) o (Memory.get j t))
      → ((store_page c (page_of c pt id) new (record pt { cache = cache })).0 ≡ ok tt)
        × Represents c (store_page c (page_of c pt id) new (record pt { cache = cache })).1 t'
  stored_back id o pt t t' cache body new r v lt there fits changed next gets =
      let loaded : PageTable V = record pt { cache = cache } in
      let (done, b) = store_page-Becomes c (page_of c pt id) new loaded v lt fits in
      let after : PageTable V = (store_page c (page_of c pt id) new loaded).1 in
      (
        done,
        record {
          valid = b.valid;
          next_id = b.next_id ∙ (r.next_id ∙ sym next);
          rows = λ j.
              view-with_body c loaded after id body new o b there changed j
              ∙ (ap (λ x. ite (dec_eq id j) o x) (r.rows j) ∙ sym (gets j));
        },
      )

  -- UPDATE of a row that is there, if its page still fits.
  pub update-Represents :
      (id : ℕ) (row old : Row V) (pt : PageTable V) (t : TableData V)
      → Represents c pt t
      → Memory.get id t ≡ some old
      → StillFits (Map.insert id row) pt id
      → let (r, pt') = update c id row pt in
        (r ≡ ok true) × Represents c pt' (Memory.update id row t).1
  unfolding update Memory.update
  update-Represents id row old pt t r found fits =
      let (body, there) = r.valid.readable (page_of c pt id) in
      let (cache, loaded, v) = load_page_lem c (page_of c pt id) pt body r.valid there in
      let in_body : Map.lookup id body.rows ≡ some old =
        ap (λ x. row_in c x id) (sym there) ∙ (r.rows id ∙ found) in
      let new : PageBody V = record { rows = Map.insert id row body.rows } in
      elim (Bool-cases (leb pt.page_count (page_of c pt id))) [
        | inl e ↦
            absurd (ground (arith, view-past c pt id r.valid (ground (arith, e)), r.rows id, found))
        | inr e ↦
            let (done, rep) =
              stored_back id (some row) pt t (Memory.update id row t).1 cache body new r v
                (ground (arith, e)) there (fits body there) (λ j. lookup-insert id j row body.rows)
                refl (λ j. get-update id row t j) in
            let whole : update c id row pt
                ≡ (ok true, (store_page c (page_of c pt id) new (record pt { cache = cache })).1) =
              ground (arith, e, loaded, in_body, done) in
            subst (λ x. (x.0 ≡ ok true) × Represents c x.1 (Memory.update id row t).1) (sym whole)
              (refl, rep)
      ]

  -- A delete of a row that is not there.
  nothing_deleted :
      (id : ℕ) (pt : PageTable V) (t : TableData V)
      → Represents c pt t
      → Memory.get id t ≡ none
      → ((Memory.delete id t).0 ≡ false) × Represents c pt (Memory.delete id t).1
  unfolding Memory.delete Memory.get
  nothing_deleted id pt t r gone = (
    ground (arith, gone),
    record {
      valid = r.valid;
      next_id = r.next_id;
      rows = λ j. r.rows j ∙ ground (arith, gone, get-delete id t j);
    },
  )

  deleted :
      (id : ℕ) (t : TableData V) (old : Row V)
      → Memory.get id t ≡ some old
      → (Memory.delete id t).0 ≡ true
  unfolding Memory.delete Memory.get
  deleted id t old found = ground (arith, found)

  next_id-delete : (id : ℕ) (t : TableData V) → (Memory.delete id t).1.next_id ≡ t.next_id
  unfolding Memory.delete
  next_id-delete id t = refl

  -- DELETE of any row, if its page still fits.
  pub delete-Represents :
      (id : ℕ) (pt : PageTable V) (t : TableData V)
      → Represents c pt t
      → StillFits (Map.remove id) pt id
      → let (r, pt') = delete c id pt in
        (r ≡ ok (Memory.delete id t).0) × Represents c pt' (Memory.delete id t).1
  unfolding delete
  delete-Represents id pt t r fits =
      let (body, there) = r.valid.readable (page_of c pt id) in
      let (cache, loaded, v) = load_page_lem c (page_of c pt id) pt body r.valid there in
      let in_body : Map.lookup id body.rows ≡ Memory.get id t =
        ap (λ x. row_in c x id) (sym there) ∙ r.rows id in
      let kept : PageTable V = record pt { cache = cache } in
      let new : PageBody V = record { rows = Map.remove id body.rows } in
      let P : Result Bool × PageTable V → Type 0 =
        λ x. (x.0 ≡ ok (Memory.delete id t).0) × Represents c x.1 (Memory.delete id t).1 in
      elim (Bool-cases (leb pt.page_count (page_of c pt id))) [
        | inl e ↦
            let whole : delete c id pt ≡ (ok false, pt) = ground (arith, e) in
            let gone : Memory.get id t ≡ none =
              sym (r.rows id) ∙ view-past c pt id r.valid (ground (arith, e)) in
            let (no_row, rep) = nothing_deleted id pt t r gone in
            subst P (sym whole) (ap ok (sym no_row), rep)
        | inr e ↦ elim (Option-cases (Map.lookup id body.rows)) [
          | inl f ↦
              let whole : delete c id pt ≡ (ok false, kept) = ground (arith, e, loaded, f) in
              let (no_row, rep) =
                nothing_deleted id kept t (with_cache-Represents c pt t cache r v)
                  (sym in_body ∙ f) in
              subst P (sym whole) (ap ok (sym no_row), rep)
          | inr (old, f) ↦
              let (done, rep) =
                stored_back id none pt t (Memory.delete id t).1 cache body new r v
                  (ground (arith, e)) there (fits body there) (λ j. lookup-remove id j body.rows)
                  (next_id-delete id t) (λ j. get-delete id t j) in
              let whole : delete c id pt ≡ (ok true, (store_page c (page_of c pt id) new kept).1) =
                ground (arith, e, loaded, f, done) in
              subst P (sym whole) (ap ok (sym (deleted id t old (sym in_body ∙ f))), rep)
        ]
      ]
