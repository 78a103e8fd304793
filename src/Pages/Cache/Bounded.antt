-- ===== src/Pages/Cache/Bounded.antt =====
-- How many pages the cache of moodeng-core/src/page_table.rs holds.
use mathlib.Core.Path.{subst}
use moodeng_sql.Prelude.{
  ℕ, ◌≤◌, ◌<◌, ◌≡◌, ◌≢◌, refl, sym, ◌⊎◌, inl, inr, some, List, [], ◌∷◌, ◌++◌, arith, leb, ◌==◌,
  Bool-cases, Option-cases, nat_key, dec_eq,
}
use moodeng_sql.Prelude.Map
use moodeng_sql.Prelude.Map.{
  Map, Distinct, lookup-insert, lookup-remove, remove-Distinct, insert-Distinct,
  length-insert_there, length-insert_new,
}
use moodeng_sql.Prelude.Lists.{length, In, In-append, In-snoc}
use moodeng_sql.Pages.Cache.{LruCache, touch, remove_first, evict, get, insert, len}

-- Every page of the cache stands in the order.
abbrev pub Covers : {B : Type 0} → List ℕ → Map ℕ B → Type 0
Covers {B} order pages = (p : ℕ) (body : B) → Map.lookup p pages ≡ some body → In p order

In-remove_first : (p q : ℕ) (order : List ℕ) → In q order → p ≢ q → In q (remove_first p order)
unfolding remove_first
In-remove_first p q [] h other = elim h [ ]
In-remove_first p q (x ∷ order) (inl same) other = rw same (ground (arith, same, other))
In-remove_first p q (x ∷ order) (inr there) other = elim (Bool-cases (x == p)) [
  | inl e ↦ rw e there
  | inr e ↦ rw e (inr (In-remove_first p q order there other))
]

module _ {B : Type 0} where
  -- A page that is touched moves to the end of the order, and no page leaves it.
  touch-Covers :
      (p : ℕ) (c : LruCache B) → Covers c.order c.pages → Covers (touch p c).order c.pages
  unfolding touch
  touch-Covers p c h q body e = elim (dec_eq p q) [
    | yes same ↦ rw same (In-snoc q (remove_first q c.order))
    | no other ↦
        In-append q (remove_first p c.order) (p ∷ [])
          (In-remove_first p q c.order (h q body e) other)
  ]

  none_covered : (pages : Map ℕ B) → Covers [] pages → pages ≡ []
  unfolding Map.lookup
  none_covered [] h = refl
  none_covered ((k, b) ∷ pages) h = absurd (h k b (ground arith))

  Covers-remove :
      (oldest : ℕ) (order : List ℕ) (pages : Map ℕ B)
      → Covers (oldest ∷ order) pages
      → Covers order (Map.remove oldest pages)
  Covers-remove oldest order pages h p body e =
      let before : Map.lookup p pages ≡ some body =
        ground (arith, e, lookup-remove oldest p pages) in
      let other : oldest ≢ p = λ same. ground (arith, e, same, lookup-remove oldest p pages) in
      elim (h p body before) [ inl same ↦ absurd (other same) | inr there ↦ there ]

  -- The eviction makes room: it stops below the bound, or with no page left.
  evict_lem :
      (max_pages : ℕ) (order : List ℕ) (pages : Map ℕ B)
      → Distinct pages
      → Covers order pages
      → let (pages', order') = evict max_pages order pages in
        Distinct pages' × Covers order' pages' × ((length pages' < max_pages) ⊎ (pages' ≡ []))
  unfolding evict
  evict_lem max_pages [] pages d h = (d, h, inr (none_covered pages h))
  evict_lem max_pages (oldest ∷ order) pages d h =
      let rest =
        evict_lem max_pages order (Map.remove oldest pages) (remove-Distinct oldest pages d)
          (Covers-remove oldest order pages h) in
      elim (Bool-cases (leb max_pages (length pages))) [
        | inl f ↦ rw f rest
        | inr f ↦ rw f (d, h, inl (ground (arith, f)))
      ]

  -- The pages are distinct, stand in the order, and are at most `max_pages`, or one where that is
  -- 0.
  pub record IsBounded (c : LruCache B) : Type 0 where
    pub distinct : Distinct c.pages
    pub covered : Covers c.order c.pages
    pub bound : (len c ≤ c.max_pages) ⊎ (len c ≤ 1)

  touch-IsBounded : (p : ℕ) (c : LruCache B) → IsBounded c → IsBounded (touch p c)
  unfolding touch
  touch-IsBounded p c h = record {
    distinct = h.distinct;
    covered = unfold touch in touch-Covers p c h.covered;
    bound = h.bound;
  }

  covered_there :
      (p q : ℕ) (body b old : B) (order : List ℕ) (pages : Map ℕ B)
      → Covers order pages
      → Map.lookup p pages ≡ some old
      → Map.lookup q (Map.insert p body pages) ≡ some b
      → In q order
  covered_there p q body b old order pages h e f = elim (dec_eq p q) [
    | yes same ↦ h q old (ground (arith, e, same))
    | no other ↦ h q b (ground (arith, f, other, lookup-insert p q body pages))
  ]

  -- A new page stands at the end of the order.
  covered_new :
      (p q : ℕ) (body b : B) (order : List ℕ) (pages : Map ℕ B)
      → Covers order pages
      → Map.lookup q (Map.insert p body pages) ≡ some b
      → In q (remove_first p order ++ p ∷ [])
  covered_new p q body b order pages h f = elim (dec_eq p q) [
    | yes same ↦ rw same (In-snoc q (remove_first q order))
    | no other ↦ In-append q (remove_first p order) (p ∷ []) (
        In-remove_first p q order (h q b (ground (arith, f, other, lookup-insert p q body pages)))
          other)
  ]

  length-insert_bound :
      (p : ℕ) (body : B) (max_pages : ℕ) (pages : Map ℕ B)
      → (length pages < max_pages) ⊎ (pages ≡ [])
      → (length (Map.insert p body pages) ≤ max_pages) ⊎ (length (Map.insert p body pages) ≤ 1)
  unfolding Map.insert
  length-insert_bound p body max_pages pages (inr e) = rw e (inr (omega arith))
  length-insert_bound p body max_pages pages (inl lt) = elim (Option-cases (Map.lookup p pages)) [
    | inl e ↦ inl (omega (arith, length-insert_new p body pages e))
    | inr (old, e) ↦ inl (omega (arith, length-insert_there p body pages {w = old} e))
  ]

  pub get-IsBounded : (p : ℕ) (c : LruCache B) → IsBounded c → IsBounded (get p c).1
  unfolding get
  get-IsBounded p c h = elim (Option-cases (Map.lookup p c.pages)) [
    | inl e ↦ let same : (get p c).1 ≡ c = ground (arith, e) in subst IsBounded (sym same) h
    | inr (body, e) ↦
        let touched : (get p c).1 ≡ touch p c = ground (arith, e) in
        subst IsBounded (sym touched) (touch-IsBounded p c h)
  ]

  -- An insert keeps the bound on the pages in memory, whatever the cache holds.
  pub insert-IsBounded :
      (p : ℕ) (body : B) (c : LruCache B) → IsBounded c → IsBounded (insert p body c)
  unfolding insert
  insert-IsBounded p body c h = elim (Option-cases (Map.lookup p c.pages)) [
    | inr (old, e) ↦
        let c' : LruCache B = record c { pages = Map.insert p body c.pages } in
        let there : insert p body c ≡ touch p c' = ground (arith, e) in
        subst IsBounded (sym there) (
          touch-IsBounded p c' (record {
            distinct = insert-Distinct p body c.pages h.distinct;
            covered = λ q b f. covered_there p q body b old c.order c.pages h.covered e f;
            bound = ground (arith, h.bound, length-insert_there p body c.pages {w = old});
          }))
    | inl e ↦
        let (d, cov, room) = evict_lem c.max_pages c.order c.pages h.distinct h.covered in
        let pages' : Map ℕ B = (evict c.max_pages c.order c.pages).0 in
        let order' : List ℕ = (evict c.max_pages c.order c.pages).1 in
        let c' : LruCache B = record c { pages = Map.insert p body pages'; order = order' } in
        let new : insert p body c ≡ touch p c' = ground (arith, e) in
        let small : (length (Map.insert p body pages') ≤ c.max_pages)
            ⊎ (length (Map.insert p body pages') ≤ 1) =
          length-insert_bound p body c.max_pages pages' room in
        subst IsBounded (sym new) (record {
          distinct = insert-Distinct p body pages' d;
          covered = λ q b f. covered_new p q body b order' pages' cov f;
          bound = small;
        })
  ]
