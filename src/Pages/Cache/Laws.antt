-- ===== src/Pages/Cache/Laws.antt =====
-- What the cache of moodeng-core/src/page_table.rs finds, and how many pages it holds.
use moodeng_sql.Prelude.{
  ℕ, ◌≡◌, ◌≢◌, inl, inr, some, List, [], ◌∷◌, arith, leb, Bool-cases, nat_key,
}
use moodeng_sql.Prelude.Map
use moodeng_sql.Prelude.Map.{
  Map, Distinct, lookup-insert, lookup-remove, remove-Distinct, insert-Distinct,
}
use moodeng_sql.Prelude.Lists.{length}
use moodeng_sql.Pages.Cache.{LruCache, touch, evict, get, insert}

module _ {B : Type 0} where
  -- What is left after the eviction was there before.
  lookup-evict :
      (max_pages : ℕ) (order : List ℕ) (pages : Map ℕ B) (p : ℕ) (body : B)
      → Map.lookup p (evict max_pages order pages).0 ≡ some body
      → Map.lookup p pages ≡ some body
  unfolding evict
  lookup-evict max_pages [] pages p body e = e
  lookup-evict max_pages (oldest ∷ order) pages p body e =
      elim (Bool-cases (leb max_pages (length pages))) [
        | inl f ↦
            let before : Map.lookup p (Map.remove oldest pages) ≡ some body =
              lookup-evict max_pages order (Map.remove oldest pages) p body
                (ground (arith, e, f)) in
            ground (arith, before, lookup-remove oldest p pages)
        | inr f ↦ ground (arith, e, f)
      ]

  -- Reading changes no page.
  pub pages-get : (p : ℕ) (c : LruCache B) → (get p c).1.pages ≡ c.pages
  unfolding get touch
  pages-get p c = ground arith

  pub get_lem : (p : ℕ) (c : LruCache B) → (get p c).0 ≡ Map.lookup p c.pages
  unfolding get
  get_lem p c = ground arith

  -- After an insert the cache holds the page as it was inserted, and all others as before or not
  -- at all.
  pub insert_lem :
      (p : ℕ) (body : B) (c : LruCache B)
      → (Map.lookup p (insert p body c).pages ≡ some body)
        × ((q : ℕ) (b : B)
            → p ≢ q
            → Map.lookup q (insert p body c).pages ≡ some b
            → Map.lookup q c.pages ≡ some b)
  unfolding insert touch
  insert_lem p body c =
      let kept : Map ℕ B = (evict c.max_pages c.order c.pages).0 in
      (
        ground (arith, lookup-insert p p body c.pages, lookup-insert p p body kept),
        λ q b other e. ground (
          arith,
          lookup-insert p q body c.pages,
          lookup-insert p q body kept,
          lookup-evict c.max_pages c.order c.pages q b,
        ),
      )
