-- ===== src/Tests/Paged.antt =====
-- The theorems on paged tables at a small table: two rows on two pages, of which the cache holds
-- one.
use moodeng_sql.Prelude.{ℕ, String, List, [], ◌∷◌, refl, arith, nat_key, dec_eq, inl, inr}
use moodeng_sql.Prelude.Map
use moodeng_sql.Error.{Result, ok, err}
use moodeng_sql.Types.{Row, new}
use moodeng_sql.Types.Value.{Value}
use moodeng_sql.Storage.Table as Memory
use moodeng_sql.Pages.Cache
use moodeng_sql.Pages.Cache.{LruCache}
use moodeng_sql.Pages.Cache.Bounded.{IsBounded, insert-IsBounded}
use moodeng_sql.Pages.Table
use moodeng_sql.Pages.Table.{PageBody, PageCodecs, PageTable, open_new, no_rows, page_slot_bytes}
use moodeng_sql.Pages.Table.Refines.{Represents}
use moodeng_sql.Pages.Table.History.{Call, in_pages, open_new-Represents}
use moodeng_sql.Tests.Coder.{number, via, pair, sequence, rows, bincode}

unfoldable page_codecs : PageCodecs (Value String)
page_codecs = record {
  pages =
      bincode
        (via (λ b. b.rows) (λ r. record { rows = r }) (λ b. refl) (sequence (pair number rows)));
  some_bytes = λ body. omega arith;
  headers = bincode (
      via (λ h. (h.next_id, h.page_count)) (λ x. record { next_id = x.0; page_count = x.1 })
        (λ h. refl) (pair number number));
  header_fits = λ header. omega arith;
}

abbrev alice : Row (Value String)
alice = new (Value.int4 1 ∷ Value.text "al" ∷ [])

abbrev bob : Row (Value String)
bob = new (Value.int4 2 ∷ Value.text "bo" ∷ [])

abbrev blank : PageTable (Value String)
blank = open_new 1 2

abbrev calls : List (Call (Value String))
calls = Call.insert alice ∷ Call.apply_insert 3 bob ∷ Call.get 1 ∷ Call.get 3 ∷ []

abbrev with_alice : PageTable (Value String)
with_alice = (in_pages page_codecs (Call.insert alice) blank).1

abbrev with_both : PageTable (Value String)
with_both = (in_pages page_codecs (Call.apply_insert 3 bob) with_alice).1

abbrev body_of : Result (PageBody (Value String)) → PageBody (Value String)
body_of (ok body) = body
body_of (err e) = no_rows

open_new-Represents_example : Represents page_codecs (open_new 1 2) Memory.empty
open_new-Represents_example = open_new-Represents page_codecs 1 2

abbrev full : LruCache ℕ
full = record { max_pages = 2; pages = (7, 70) ∷ (4, 40) ∷ []; order = 4 ∷ 7 ∷ [] }

full-IsBounded : IsBounded full
unfolding Map.lookup native.Mathlib.Decide.ℕ_discrete
full-IsBounded = record {
  distinct = (refl, (refl, tt));
  covered = λ p body e. elim (dec_eq 4 p) [
    | yes same ↦ inl same
    | no other ↦ elim (dec_eq 7 p) [
      | yes same ↦ inr (inl same)
      | no others ↦ ground (arith, e, other, others)
    ]
  ];
  bound = inl (omega arith);
}

insert-IsBounded_example : IsBounded (Cache.insert 9 90 full)
insert-IsBounded_example = insert-IsBounded 9 90 full full-IsBounded
