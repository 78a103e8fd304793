-- ===== src/Pages/Table/Steps.antt =====
-- The steps of which the operations of moodeng-core/src/page_table.rs are made.
use mathlib.Core.Path.{subst}
use moodeng_sql.Prelude.{
  ℕ, ◌+◌, ◌%◌, ◌^◌, ◌≤◌, ◌<◌, ◌≡◌, refl, sym, ap, ◌∙◌, inl, inr, some, ltb, nat_key, arith,
  Bool-cases, Option-cases, dec_eq, ite, if_pos, if_neg,
}
use moodeng_sql.Prelude.Map
use moodeng_sql.Prelude.Map.{Map}
use moodeng_sql.Prelude.Lists.{length}
use moodeng_sql.Error.{ok, err, storage}
use moodeng_sql.Pages.Mapped.{Mmap, write_at, set_len, write_at-outside}
use moodeng_sql.Pages.Cache
use moodeng_sql.Pages.Cache.{LruCache}
use moodeng_sql.Pages.Cache.Laws.{insert_lem, pages-get, get_lem}
use moodeng_sql.Pages.Cache.Bounded.{IsBounded, get-IsBounded, insert-IsBounded}
use moodeng_sql.Pages.Table.{
  PageBody, PageFileHeader, PageCodecs, PageTable, page_slot_bytes, header_bytes, offset,
  file_size_for_pages, slot_len, read_slot, with_page, load_page, store_page, write_header,
  grow_if_needed,
}
use moodeng_sql.Pages.Table.Stored.{
  page_at, page_at-blank, page_at-with_page, page_at-with_page_ne, with_page-outside,
}
use moodeng_sql.Pages.Table.Kept.{IsFile, IsCoherent, IsValid, Becomes, unchanged, refiled}

module _ {V : Type 0} (c : PageCodecs V) where
  -- The header is written in front of the pages.
  header-outside :
      (byte : ℕ → ℕ) (header : PageFileHeader) (i : ℕ)
      → header_bytes ≤ i
      → write_at byte 0 (c.headers.serialize header) i ≡ byte i
  header-outside byte header i le =
      write_at-outside byte 0 (c.headers.serialize header) i
        (omega (arith, le, c.header_fits header))

  pub write_header-Becomes :
      (pt : PageTable V) → IsValid c pt → Becomes c pt (unchanged c pt) (write_header c pt)
  unfolding write_header
  write_header-Becomes pt v =
      let header : PageFileHeader = record { next_id = pt.next_id; page_count = pt.page_count } in
      refiled c pt (record pt.mmap { byte = write_at pt.mmap.byte 0 (c.headers.serialize header) })
        pt.page_count v (omega arith) v.file.sized
        (λ i le lt. header-outside pt.mmap.byte header i le)
        (λ i le. header-outside pt.mmap.byte header i (omega (arith, le)) ∙ v.file.blank i le)

  -- Growing keeps all pages, and reaches the page that is asked for.
  pub grow-Becomes :
      (p : ℕ) (pt : PageTable V)
      → IsValid c pt
      → p + 1 < 2 ^ 32
      → Becomes c pt (unchanged c pt) (grow_if_needed c p pt)
        × (p < (grow_if_needed c p pt).page_count)
  unfolding grow_if_needed write_header
  grow-Becomes p pt v small = elim (Bool-cases (ltb p pt.page_count)) [
    | inl e ↦ rw e (
      record { valid = v; pages = λ q. refl; next_id = refl; rows_per_page = refl },
      ground (arith, e),
    )
    | inr e ↦
        let le : pt.page_count ≤ p = ground (arith, e) in
        let count : (p + 1) % 2 ^ 32 ≡ p + 1 = omega (arith, small) in
        let longer : Mmap = set_len (file_size_for_pages ((p + 1) % 2 ^ 32)) pt.mmap in
        let header : PageFileHeader = record {
          next_id = pt.next_id;
          page_count = (p + 1) % 2 ^ 32;
        } in
        let byte : ℕ → ℕ = write_at longer.byte 0 (c.headers.serialize header) in
        rw e (
          refiled c pt (record longer { byte = byte }) ((p + 1) % 2 ^ 32) v
              (omega (arith, le, count)) (omega (arith, count))
              (λ i up lt. header-outside longer.byte header i up ∙ ground (arith, lt, v.file.sized))
              (λ i up.
                header-outside longer.byte header i (omega (arith, up))
                ∙ ground (arith, v.file.blank i up)),
          omega (arith, count),
        )
  ]

  with_cache :
      (pt : PageTable V) (cache : LruCache (PageBody V))
      → IsValid c pt
      → IsCoherent c pt.mmap cache
      → IsBounded cache
      → IsValid c (record pt { cache = cache })
  with_cache pt cache v coherent bounded = record {
    file = v.file;
    coherent = coherent;
    bounded = bounded;
    readable = v.readable;
  }

  insert-IsCoherent :
      (p : ℕ) (body : PageBody V) (m : Mmap) (cache : LruCache (PageBody V))
      → IsCoherent c m cache
      → page_at c m p ≡ ok body
      → IsCoherent c m (Cache.insert p body cache)
  insert-IsCoherent p body m cache coherent there q b e = elim (dec_eq p q) [
    | yes same ↦ ground (arith, same, e, there, (insert_lem p body cache).0)
    | no other ↦ coherent q b ((insert_lem p body cache).1 q b other e)
  ]

  -- A page that the file of a sound table holds is loaded as it is there, from the cache or not,
  -- and only the cache changes.
  pub load_page_lem :
      (p : ℕ) (pt : PageTable V) (body : PageBody V)
      → IsValid c pt
      → page_at c pt.mmap p ≡ ok body
      → (cache : LruCache (PageBody V)) × (load_page c p pt
          ≡ (ok body, record pt { cache = cache }))
        × IsValid c (record pt { cache = cache })
  unfolding load_page
  load_page_lem p pt body v there =
      let got : LruCache (PageBody V) = (Cache.get p pt.cache).1 in
      let found : (Cache.get p pt.cache).0 ≡ Map.lookup p pt.cache.pages = get_lem p pt.cache in
      let coherent : IsCoherent c pt.mmap got =
        λ q b e. v.coherent q b (ap (λ m. Map.lookup q m) (sym (pages-get p pt.cache)) ∙ e) in
      let bounded : IsBounded got = get-IsBounded p pt.cache v.bounded in
      let as_got : IsValid c (record pt { cache = got }) = with_cache pt got v coherent bounded in
      elim (Option-cases (Map.lookup p pt.cache.pages)) [
        | inr (b, e) ↦ (got, ground (arith, found, e, v.coherent p b e, there), as_got)
        | inl e ↦ elim (Option-cases (read_slot c pt.mmap p)) [
          | inl f ↦ (got, ground (arith, found, e, f, there), as_got)
          | inr (r, f) ↦
              let whole : r ≡ ok body = ground (arith, f, there) in
              (
                Cache.insert p body got,
                ground (arith, found, e, f, whole),
                with_cache pt (Cache.insert p body got) v
                    (insert-IsCoherent p body pt.mmap got coherent there)
                    (insert-IsBounded p body got bounded),
              )
        ]
      ]

  abbrev stored : Mmap → ℕ → PageBody V → Mmap
  stored m p body = record m { byte = with_page c m.byte p (c.pages.serialize body) }

  stored-blank :
      (p : ℕ) (body : PageBody V) (m : Mmap) (count : ℕ)
      → IsFile c m count
      → p < count
      → length (c.pages.serialize body) + 4 ≤ page_slot_bytes
      → (i : ℕ) → offset count ≤ i
      → (stored m p body).byte i ≡ 0
  stored-blank p body m count f lt small i le =
      with_page-outside c m.byte p (c.pages.serialize body) i small (inr (omega (arith, lt, le)))
      ∙ f.blank i le

  -- Each page after a page was stored.
  page_at-stored :
      (p : ℕ) (body : PageBody V) (m : Mmap) (count : ℕ)
      → IsFile c m count
      → p < count
      → length (c.pages.serialize body) + 4 ≤ page_slot_bytes
      → (q : ℕ) → page_at c (stored m p body) q ≡ ite (dec_eq p q) (ok body) (page_at c m q)
  page_at-stored p body m count f lt small q = elim (dec_eq p q) [
    | yes same ↦
        let here = (page_at-with_page c m p body (omega (arith, lt, f.sized)) small).1 in
        ap (λ k. page_at c (stored m p body) k) (sym same)
        ∙ (here ∙ sym (if_pos (dec_eq p q) same _ _))
    | no other ↦ elim (Bool-cases (ltb q count)) [
      | inl e ↦
          let q_lt : q < count = ground (arith, e) in
          (page_at-with_page_ne c m p q (c.pages.serialize body) other small
            (omega (arith, q_lt, f.sized), f.slots q q_lt)).1
          ∙ sym (if_neg (dec_eq p q) other _ _)
      | inr e ↦
          let le : count ≤ q = ground (arith, e) in
          (page_at-blank c (stored m p body) q
            (λ i up. stored-blank p body m count f lt small i (omega (arith, le, up)))).1
          ∙ (sym (page_at-blank c m q (λ i up. f.blank i (omega (arith, le, up)))).1
              ∙ sym (if_neg (dec_eq p q) other _ _))
    ]
  ]

  stored-IsFile :
      (p : ℕ) (body : PageBody V) (m : Mmap) (count : ℕ)
      → IsFile c m count
      → p < count
      → length (c.pages.serialize body) + 4 ≤ page_slot_bytes
      → IsFile c (stored m p body) count
  stored-IsFile p body m count f lt small = record {
    sized = f.sized;
    slots = λ q q_lt. elim (dec_eq p q) [
      | yes same ↦
          subst (λ k. slot_len c (stored m p body).byte k + 4 ≤ page_slot_bytes) same
            (page_at-with_page c m p body (omega (arith, lt, f.sized)) small).0
      | no other ↦ omega (
        arith,
        (page_at-with_page_ne c m p q (c.pages.serialize body) other small
            (omega (arith, q_lt, f.sized), f.slots q q_lt)).0,
        f.slots q q_lt,
      )
    ];
    blank = stored-blank p body m count f lt small;
  }

  stored-IsCoherent :
      (p q : ℕ) (body b : PageBody V) (pt : PageTable V)
      → IsValid c pt
      → p < pt.page_count
      → length (c.pages.serialize body) + 4 ≤ page_slot_bytes
      → Map.lookup q (Cache.insert p body pt.cache).pages ≡ some b
      → page_at c (stored pt.mmap p body) q ≡ ok b
  stored-IsCoherent p q body b pt v lt small e =
      let page = page_at-stored p body pt.mmap pt.page_count v.file lt small q in
      elim (dec_eq p q) [
        | yes same ↦
            page
            ∙ (if_pos (dec_eq p q) same _ _
                ∙ ground (arith, same, e, (insert_lem p body pt.cache).0))
        | no other ↦
            page
            ∙ (if_neg (dec_eq p q) other _ _
                ∙ v.coherent q b ((insert_lem p body pt.cache).1 q b other e))
      ]

  -- A page that fits its slot is stored, and the other pages stay.
  pub store_page-Becomes :
      (p : ℕ) (body : PageBody V) (pt : PageTable V)
      → IsValid c pt
      → p < pt.page_count
      → length (c.pages.serialize body) + 4 ≤ page_slot_bytes
      → ((store_page c p body pt).0 ≡ ok tt)
        × Becomes c pt
            (λ q. ite (dec_eq p q) (ok body) (page_at c pt.mmap q))
            (store_page c p body pt).1
  unfolding store_page
  store_page-Becomes p body pt v lt small =
      let n : Mmap = stored pt.mmap p body in
      let whole : store_page c p body pt
          ≡ (ok tt, record pt { mmap = n; cache = Cache.insert p body pt.cache }) =
        ground (arith, lt, small) in
      let pages = page_at-stored p body pt.mmap pt.page_count v.file lt small in
      (
        ap (λ x. x.0) whole,
        subst (λ x. Becomes c pt (λ q. ite (dec_eq p q) (ok body) (page_at c pt.mmap q)) x.1)
            (sym whole)
            (record {
              valid = record {
                file = stored-IsFile p body pt.mmap pt.page_count v.file lt small;
                coherent = λ q b e. stored-IsCoherent p q body b pt v lt small e;
                bounded = insert-IsBounded p body pt.cache v.bounded;
                readable = λ q. elim (dec_eq p q) [
                  | yes same ↦ (body, pages q ∙ if_pos (dec_eq p q) same _ _)
                  | no other ↦
                      let (b, e) = v.readable q in
                      (b, pages q ∙ (if_neg (dec_eq p q) other _ _ ∙ e))
                ];
              };
              pages = pages;
              next_id = refl;
              rows_per_page = refl;
            }),
      )

  -- A page that does not fit is refused, and nothing changes.
  pub store_page_overflow :
      (p : ℕ) (body : PageBody V) (pt : PageTable V)
      → p < pt.page_count
      → page_slot_bytes < length (c.pages.serialize body) + 4
      → store_page c p body pt ≡ (err (storage "page overflow"), pt)
  unfolding store_page
  store_page_overflow p body pt lt big = ground (arith, lt, big)
