-- ===== src/Pages/Table/History.antt =====
-- Runs of operations on the two kinds of `TableBackend` of moodeng-core/src/storage.rs: pages, and
-- memory.
use moodeng_sql.Prelude.{
  ℕ, Bool, true, ◌≡◌, refl, sym, ap, ◌∙◌, Option, some, List, [], ◌∷◌, inr, nat_key, arith,
}
use moodeng_sql.Prelude.Map
use moodeng_sql.Error.{Result, ok, err}
use moodeng_sql.Types.{Row}
use moodeng_sql.Storage.Table as Memory
use moodeng_sql.Storage.Table.{TableData}
use moodeng_sql.Pages.Table
use moodeng_sql.Pages.Table.{PageCodecs, PageTable, PageBody, open_new, no_rows}
use moodeng_sql.Pages.Table.Stored.{page_at-blank}
use moodeng_sql.Pages.Table.Rows.{HasRoom, row_in, page_of}
use moodeng_sql.Pages.Table.Refines.{
  Represents, get-Represents, insert-Represents, apply_insert-Represents,
}
use moodeng_sql.Pages.Table.Replaced.{StillFits, update-Represents, delete-Represents}

-- A call of a table's backend.
pub data Call (V : Type 0) : Type 0 where
  insert : Row V → Call V
  apply_insert : ℕ → Row V → Call V
  get : ℕ → Call V
  update : ℕ → Row V → Call V
  delete : ℕ → Call V

-- What a call answers.
pub data Answer (V : Type 0) : Type 0 where
  number : ℕ → Answer V
  found : Option (Row V) → Answer V
  flag : Bool → Answer V
  done : Answer V

module _ {V : Type 0} where
  abbrev pub answered : {A : Type 0} → (A → Answer V) → Result A → Result (Answer V)
  answered f (ok a) = ok (f a)
  answered f (err e) = err e

  -- The backend in memory.
  abbrev pub in_memory : Call V → TableData V → Answer V × TableData V
  in_memory (Call.insert row) t = let (id, t') = Memory.insert row t in (Answer.number id, t')
  in_memory (Call.apply_insert id row) t = (Answer.done, Memory.apply_insert id row t)
  in_memory (Call.get id) t = (Answer.found (Memory.get id t), t)
  in_memory (Call.update id row) t = let (b, t') = Memory.update id row t in (Answer.flag b, t')
  in_memory (Call.delete id) t = let (b, t') = Memory.delete id t in (Answer.flag b, t')

  abbrev pub all_in_memory : List (Call V) → TableData V → List (Answer V) × TableData V
  all_in_memory [] t = ([], t)
  all_in_memory (call ∷ calls) t =
      let (answer, t') = in_memory call t in
      let (answers, t'') = all_in_memory calls t' in (answer ∷ answers, t'')

module _ {V : Type 0} (c : PageCodecs V) where
  -- The backend in pages.
  abbrev pub in_pages : Call V → PageTable V → Result (Answer V) × PageTable V
  in_pages (Call.insert row) pt =
      let (r, pt') = Table.insert c row pt in (answered Answer.number r, pt')
  in_pages (Call.apply_insert id row) pt =
      let (r, pt') = Table.apply_insert c id row pt in (answered (λ _. Answer.done) r, pt')
  in_pages (Call.get id) pt = let (r, pt') = Table.get c id pt in (answered Answer.found r, pt')
  in_pages (Call.update id row) pt =
      let (r, pt') = Table.update c id row pt in (answered Answer.flag r, pt')
  in_pages (Call.delete id) pt =
      let (r, pt') = Table.delete c id pt in (answered Answer.flag r, pt')

  abbrev pub all_in_pages : List (Call V) → PageTable V → List (Result (Answer V)) × PageTable V
  all_in_pages [] pt = ([], pt)
  all_in_pages (call ∷ calls) pt =
      let (answer, pt') = in_pages call pt in
      let (answers, pt'') = all_in_pages calls pt' in (answer ∷ answers, pt'')

  -- The pages have room for the call, and an update is of a row that is there.
  abbrev pub IsAllowed : Call V → PageTable V → TableData V → Type 0
  IsAllowed (Call.insert row) pt t = HasRoom c pt pt.next_id row
  IsAllowed (Call.apply_insert id row) pt t = HasRoom c pt id row
  IsAllowed (Call.get id) pt t = Unit
  IsAllowed (Call.update id row) pt t =
      (old : Row V) × (Memory.get id t ≡ some old) × StillFits c (Map.insert id row) pt id
  IsAllowed (Call.delete id) pt t = StillFits c (Map.remove id) pt id

  abbrev pub AreAllowed : List (Call V) → PageTable V → TableData V → Type 0
  AreAllowed [] pt t = Unit
  AreAllowed (call ∷ calls) pt t =
      IsAllowed call pt t × AreAllowed calls (in_pages call pt).1 (in_memory call t).1

  updated :
      (id : ℕ) (row old : Row V) (t : TableData V)
      → Memory.get id t ≡ some old
      → (Memory.update id row t).0 ≡ true
  unfolding Memory.update Memory.get
  updated id row old t there = ground (arith, there)

  pub in_pages-Represents :
      (call : Call V) (pt : PageTable V) (t : TableData V)
      → Represents c pt t
      → IsAllowed call pt t
      → ((in_pages call pt).0 ≡ ok (in_memory call t).0)
        × Represents c (in_pages call pt).1 (in_memory call t).1
  in_pages-Represents (Call.insert row) pt t r h =
      let (e, r') = insert-Represents c row pt t r h in (ap (answered Answer.number) e, r')
  in_pages-Represents (Call.apply_insert id row) pt t r h =
      let (e, r') = apply_insert-Represents c id row pt t r h in
      (ap (answered (λ _. Answer.done)) e, r')
  in_pages-Represents (Call.get id) pt t r h =
      let (e, r') = get-Represents c id pt t r in (ap (answered Answer.found) e, r')
  in_pages-Represents (Call.update id row) pt t r (old, there, fits) =
      let (e, r') = update-Represents c id row old pt t r there fits in
      (ap (answered Answer.flag) (e ∙ ap ok (sym (updated id row old t there))), r')
  in_pages-Represents (Call.delete id) pt t r h =
      let (e, r') = delete-Represents c id pt t r h in (ap (answered Answer.flag) e, r')

  -- A new table in pages represents the empty table.
  pub open_new-Represents :
      (max_pages rows_per_page : ℕ) → Represents c (open_new max_pages rows_per_page) Memory.empty
  unfolding Memory.get Map.lookup
  open_new-Represents max_pages rows_per_page =
      let blank =
        λ (p : ℕ). (page_at-blank c (record { len = 65552; byte = λ i. 0 }) p (λ i le. refl)).1 in
      record {
        valid = record {
          file = record {
            sized = omega arith;
            slots = λ p lt. omega (arith, lt);
            blank = λ i le. refl;
          };
          coherent = λ p body e. ground (arith, e);
          bounded = record {
            distinct = tt;
            covered = λ p body e. absurd (ground (arith, e));
            bound = inr (omega arith);
          };
          readable = λ p. (no_rows, blank p);
        };
        next_id = refl;
        rows =
            λ id. ap (λ r. row_in c r id) (blank (page_of c (open_new max_pages rows_per_page) id));
      }
