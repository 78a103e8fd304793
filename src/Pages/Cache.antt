-- ===== src/Pages/Cache.antt =====
-- `LruCache` of moodeng-core/src/page_table.rs.
pub mod Laws
pub mod Bounded
use moodeng_sql.Prelude.{
  ℕ, ◌==◌, Option, none, some, List, [], ◌∷◌, ◌++◌, leb, if◌then◌else◌, nat_key,
}
use moodeng_sql.Prelude.Map
use moodeng_sql.Prelude.Map.{Map}
use moodeng_sql.Prelude.Lists.{length}

-- A page is any type `B`: the cache looks into none.
pub record LruCache (B : Type 0) : Type 0 where
  pub max_pages : ℕ
  pub pages : Map ℕ B
  pub order : List ℕ

-- `position` and `remove`: the first one goes.
unfoldable pub remove_first : ℕ → List ℕ → List ℕ
remove_first p [] = []
remove_first p (q ∷ order) = let rest = remove_first p order in if q == p then order else q ∷ rest

module _ {B : Type 0} where
  abbrev pub new : ℕ → LruCache B
  new max_pages = record { max_pages = max_pages; pages = []; order = [] }

  unfoldable pub touch : ℕ → LruCache B → LruCache B
  unfolding remove_first
  touch page_id c = record c { order = remove_first page_id c.order ++ page_id ∷ [] }

  unfoldable pub get : ℕ → LruCache B → Option B × LruCache B
  unfolding touch
  get page_id c = elim (Map.lookup page_id c.pages) [
    | none ↦ (none, c)
    | some body ↦ (some body, touch page_id c)
  ]

  -- The loop that makes room: the oldest page goes while the cache is full.
  unfoldable pub evict : ℕ → List ℕ → Map ℕ B → Map ℕ B × List ℕ
  evict max_pages [] pages = (pages, [])
  evict max_pages (oldest ∷ order) pages =
      let rest = evict max_pages order (Map.remove oldest pages) in
      if leb max_pages (length pages) then rest else (pages, oldest ∷ order)

  unfoldable pub insert : ℕ → B → LruCache B → LruCache B
  unfolding touch evict
  insert page_id body c =
      if Map.contains_key page_id c.pages
      then touch page_id (record c { pages = Map.insert page_id body c.pages })
      else (let (pages, order) = evict c.max_pages c.order c.pages in
          touch page_id (record c { pages = Map.insert page_id body pages; order = order }))

  abbrev pub len : LruCache B → ℕ
  len c = length c.pages
