-- ===== src/Pages/Table/Kept.antt =====
-- What every operation of moodeng-core/src/page_table.rs keeps of a table in pages.
use moodeng_sql.Prelude.{
  ℕ, ◌+◌, ◌≤◌, ◌<◌, ◌≡◌, refl, sym, ◌∙◌, inl, inr, some, ltb, nat_key, arith, Bool-cases,
}
use moodeng_sql.Prelude.Map
use moodeng_sql.Prelude.Map.{Map}
use moodeng_sql.Error.{Result, ok}
use moodeng_sql.Pages.Mapped.{Mmap}
use moodeng_sql.Pages.Cache.{LruCache}
use moodeng_sql.Pages.Cache.Bounded.{IsBounded}
use moodeng_sql.Pages.Table.{
  PageBody, PageCodecs, PageTable, page_slot_bytes, header_bytes, offset, slot_len,
}
use moodeng_sql.Pages.Table.Stored.{page_at, page_at-ext, page_at-blank}

module _ {V : Type 0} (c : PageCodecs V) where
  -- The pages lie in the file, each in its slot, and behind them is nothing.
  pub record IsFile (m : Mmap) (count : ℕ) : Type 0 where
    pub sized : offset count ≤ m.len
    pub slots : (p : ℕ) → p < count → slot_len c m.byte p + 4 ≤ page_slot_bytes
    pub blank : (i : ℕ) → offset count ≤ i → m.byte i ≡ 0

  -- The cache holds the pages of the file.
  abbrev pub IsCoherent : Mmap → LruCache (PageBody V) → Type 0
  IsCoherent m cache =
      (p : ℕ) (body : PageBody V) → Map.lookup p cache.pages ≡ some body → page_at c m p ≡ ok body

  pub record IsValid (pt : PageTable V) : Type 0 where
    pub file : IsFile pt.mmap pt.page_count
    pub coherent : IsCoherent pt.mmap pt.cache
    pub bounded : IsBounded pt.cache
    pub readable : (p : ℕ) → (body : PageBody V) × (page_at c pt.mmap p ≡ ok body)

  -- A file with the same pages: it differs in the header, or is longer.
  pages_same :
      (m n : Mmap) (count : ℕ)
      → IsFile m count
      → offset count ≤ n.len
      → ((i : ℕ) → header_bytes ≤ i → i < offset count → n.byte i ≡ m.byte i)
      → ((i : ℕ) → offset count ≤ i → n.byte i ≡ 0)
      → (q : ℕ) → (slot_len c n.byte q ≡ slot_len c m.byte q) × (page_at c n q ≡ page_at c m q)
  pages_same m n count f sized same blank q = elim (Bool-cases (ltb q count)) [
    | inl e ↦
        let lt : q < count = ground (arith, e) in
        page_at-ext c m n q (omega (arith, lt, f.sized), f.slots q lt) (omega (arith, lt, sized))
          (λ i le up. same i (omega (arith, le)) (omega (arith, lt, up)))
    | inr e ↦
        let le : count ≤ q = ground (arith, e) in
        let old = page_at-blank c m q (λ i up. f.blank i (omega (arith, le, up))) in
        let new = page_at-blank c n q (λ i up. blank i (omega (arith, le, up))) in
        (new.0 ∙ sym old.0, new.1 ∙ sym old.1)
  ]

  -- The table with its pages as `change` says, and the counters of rows as they were.
  pub record Becomes (pt : PageTable V) (change : ℕ → Result (PageBody V)) (pt' : PageTable V)
      : Type 0 where
    pub valid : IsValid pt'
    pub pages : (q : ℕ) → page_at c pt'.mmap q ≡ change q
    pub next_id : pt'.next_id ≡ pt.next_id
    pub rows_per_page : pt'.rows_per_page ≡ pt.rows_per_page

  abbrev pub unchanged : PageTable V → ℕ → Result (PageBody V)
  unchanged pt q = page_at c pt.mmap q

  -- A new file with the same pages under a larger count.
  pub refiled :
      (pt : PageTable V) (n : Mmap) (count : ℕ)
      → IsValid pt
      → pt.page_count ≤ count
      → offset count ≤ n.len
      → ((i : ℕ) → header_bytes ≤ i → i < offset pt.page_count → n.byte i ≡ pt.mmap.byte i)
      → ((i : ℕ) → offset pt.page_count ≤ i → n.byte i ≡ 0)
      → Becomes pt (unchanged pt) (record pt { page_count = count; mmap = n })
  refiled pt n count v more sized same blank =
      let all = pages_same pt.mmap n pt.page_count v.file (omega (arith, more, sized)) same blank in
      record {
        valid = record {
          file = record {
            sized = sized;
            slots = λ p lt. elim (Bool-cases (ltb p pt.page_count)) [
              | inl e ↦ omega (arith, (all p).0, v.file.slots p (ground (arith, e)))
              | inr e ↦
                  omega (arith, (page_at-blank c n p (λ i up. blank i (ground (arith, e, up)))).0)
            ];
            blank = λ i le. blank i (omega (arith, le, more));
          };
          coherent = λ p body e. (all p).1 ∙ v.coherent p body e;
          bounded = v.bounded;
          readable = λ p. let (body, e) = v.readable p in (body, (all p).1 ∙ e);
        };
        pages = λ q. (all q).1;
        next_id = refl;
        rows_per_page = refl;
      }
