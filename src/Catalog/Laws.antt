-- ===== src/Catalog/Laws.antt =====
-- What the operations of moodeng-core/src/catalog.rs keep and do.
use mathlib.Core.Path.{subst}
use moodeng_sql.Prelude.{
  String, true, false, List, [], ◌∷◌, ◌++◌, ◌≡◌, refl, sym, ◌∙◌, ◌⊎◌, inl, inr, string_key, str_eq,
  arith, Option-cases, Bool-cases, dec_eq, ite, suc_u64,
}
use moodeng_sql.Prelude.Map
use moodeng_sql.Prelude.Map.{
  Map, Distinct, insert-Distinct, remove-Distinct, lookup-insert, lookup-remove, All-insert,
  All-remove, All-lookup, length-insert_there,
}
use moodeng_sql.Prelude.Lists.{length, any, All}
use moodeng_sql.Error.{ok, err, execution, table_not_found, index_exists}
use moodeng_sql.Types.Value.{ColumnDef}
use moodeng_sql.Catalog.{
  Catalog, TableSchema, IndexMeta, count_tables, put_table, put_all, create_table, drop_table,
  get_table, load_tables, add_index, quoted,
}

-- Every schema stands once, under its own name, and the number of the tables is right.
pub record IsValid (c : Catalog) : Type 0 where
  pub distinct : Distinct c.tables
  pub named : All (λ entry. entry.1.name ≡ entry.0) c.tables
  pub counted : c.stats.table_count ≡ length c.tables

-- CREATE TABLE of a new name: the schema is there with no index, every other one is as it was;
-- of a known name: an error, and nothing changes.
create_table_lem :
    (name : String) (columns : List ColumnDef) (c : Catalog)
    → (get_table name c ≡ err (table_not_found name))
        × ((create_table name columns c).0 ≡ ok tt)
        × ((k : String)
            → get_table k (create_table name columns c).1
              ≡ ite
                  (dec_eq name k)
                  (ok (record { name = name; columns = columns; indexes = [] }))
                  (get_table k c))
      ⊎ (schema : TableSchema) × (get_table name c ≡ ok schema)
        × (create_table name columns c ≡ (err (execution (quoted name)), c))
unfolding create_table get_table
create_table_lem name columns c = elim (Option-cases (Map.lookup name c.tables)) [
  | inl p ↦ inl (
    ground (arith, p),
    ground (arith, p),
    λ k. ground (
      arith,
      p,
      lookup-insert name k (record { name = name; columns = columns; indexes = [] }) c.tables,
    ),
  )
  | inr (schema, p) ↦ inr (schema, ground (arith, p), ground (arith, p))
]

-- DROP TABLE of a known table: it is gone, every other one is as it was; of an unknown one: an
-- error, and nothing changes.
pub drop_table_lem :
    (name : String) (c : Catalog)
    → ((drop_table name c).0 ≡ ok tt)
        × ((k : String)
            → get_table k (drop_table name c).1
              ≡ ite (dec_eq name k) (err (table_not_found k)) (get_table k c))
      ⊎ (drop_table name c ≡ (err (table_not_found name), c))
unfolding drop_table get_table
drop_table_lem name c = elim (Option-cases (Map.lookup name c.tables)) [
  | inl p ↦ inr (ground (arith, p))
  | inr (schema, p) ↦ inl (ground (arith, p), λ k. ground (arith, p, lookup-remove name k c.tables))
]

put_table-named :
    (name : String) (schema : TableSchema) (c : Catalog)
    → schema.name ≡ name
    → All (λ entry. entry.1.name ≡ entry.0) c.tables
    → All (λ entry. entry.1.name ≡ entry.0) (put_table name schema c).tables
put_table-named name schema c e h =
    All-insert (λ entry. entry.1.name ≡ entry.0) name schema c.tables h e

keeps_create_table :
    (name : String) (columns : List ColumnDef) (c : Catalog)
    → IsValid c
    → IsValid (create_table name columns c).1
unfolding create_table
keeps_create_table name columns c v = elim (Bool-cases (Map.contains_key name c.tables)) [
  | inl e ↦ rw e v
  | inr e ↦
      let schema : TableSchema = record { name = name; columns = columns; indexes = [] } in
      rw e (record {
        distinct = insert-Distinct name schema c.tables v.distinct;
        named = put_table-named name schema c refl v.named;
        counted = refl;
      })
]

-- CREATE TABLE keeps one schema per name, each under its own name, and their number. A new name
-- gets its schema, with no index, and every other one is as it was; a known name is an error, and
-- nothing changes.
pub create_table-IsValid :
    (name : String) (columns : List ColumnDef) (c : Catalog)
    → IsValid c
    → IsValid (create_table name columns c).1
      × ((get_table name c ≡ err (table_not_found name))
            × ((create_table name columns c).0 ≡ ok tt)
            × ((k : String)
                → get_table k (create_table name columns c).1
                  ≡ ite
                      (dec_eq name k)
                      (ok (record { name = name; columns = columns; indexes = [] }))
                      (get_table k c))
          ⊎ (schema : TableSchema) × (get_table name c ≡ ok schema)
            × (create_table name columns c ≡ (err (execution (quoted name)), c)))
create_table-IsValid name columns c v =
    (keeps_create_table name columns c v, create_table_lem name columns c)

pub drop_table-IsValid : (name : String) (c : Catalog) → IsValid c → IsValid (drop_table name c).1
unfolding drop_table
drop_table-IsValid name c v = elim (Option-cases (Map.lookup name c.tables)) [
  | inl p ↦ let same : (drop_table name c).1 ≡ c = ground (arith, p) in subst IsValid (sym same) v
  | inr (schema, p) ↦
      let after : Catalog = count_tables (record c { tables = Map.remove name c.tables }) in
      let gone : (drop_table name c).1 ≡ after = ground (arith, p) in
      subst IsValid (sym gone) (record {
        distinct = remove-Distinct name c.tables v.distinct;
        named = All-remove (λ entry. entry.1.name ≡ entry.0) name c.tables v.named;
        counted = refl;
      })
]

-- The catalog behind a new index.
abbrev indexed : String → TableSchema → IndexMeta → Catalog → Catalog
indexed table schema index c =
    record (put_table table (record schema { indexes = schema.indexes ++ index ∷ [] }) c) {
      stats = record c.stats { total_indexes = suc_u64 c.stats.total_indexes };
    }

keeps_add_index :
    (table : String) (index : IndexMeta) (c : Catalog)
    → IsValid c
    → IsValid (add_index table index c).1
unfolding add_index
keeps_add_index table index c v = elim (Option-cases (Map.lookup table c.tables)) [
  | inl p ↦
      let same : (add_index table index c).1 ≡ c = ground (arith, p) in subst IsValid (sym same) v
  | inr (schema, p) ↦ elim (Bool-cases (any (λ i. str_eq i.name index.name) schema.indexes)) [
    | inl q ↦
        let same : (add_index table index c).1 ≡ c = ground (arith, p, q) in
        subst IsValid (sym same) v
    | inr q ↦
        let there : (add_index table index c).1 ≡ indexed table schema index c =
          ground (arith, p, q) in
        let schema' : TableSchema = record schema { indexes = schema.indexes ++ index ∷ [] } in
        subst IsValid (sym there) (record {
          distinct = insert-Distinct table schema' c.tables v.distinct;
          named =
              put_table-named table schema' c
                (All-lookup (λ entry. entry.1.name ≡ entry.0) table c.tables v.named p) v.named;
          counted = v.counted ∙ sym (length-insert_there table schema' c.tables p);
        })
  ]
]

-- A new index keeps one schema per name, each under its own name, and their number. In an unknown
-- table, or in one that has an index of this name, it is an error, and nothing changes; in all
-- other cases it is the last one of its table, no other table changes, and it is counted.
pub add_index-IsValid :
    (table : String) (index : IndexMeta) (c : Catalog)
    → IsValid c
    → let (r, after) = add_index table index c in
      IsValid after
      × ((get_table table c ≡ err (table_not_found table))
            × (add_index table index c ≡ (err (table_not_found table), c))
          ⊎ (schema : TableSchema) × (get_table table c ≡ ok schema)
            × ((any (λ i. str_eq i.name index.name) schema.indexes ≡ true)
                  × (add_index table index c ≡ (err (index_exists index.name), c))
                ⊎ (any (λ i. str_eq i.name index.name) schema.indexes ≡ false)
                  × (r ≡ ok tt)
                  × ((k : String)
                      → get_table k after
                        ≡ ite
                            (dec_eq table k)
                            (ok (record schema { indexes = schema.indexes ++ index ∷ [] }))
                            (get_table k c))
                  × (after.stats.total_indexes ≡ suc_u64 c.stats.total_indexes)))
unfolding add_index get_table
add_index-IsValid table index c v =
    let kept = keeps_add_index table index c v in
    elim (Option-cases (Map.lookup table c.tables)) [
      | inl p ↦ (kept, inl (ground (arith, p), ground (arith, p)))
      | inr (schema, p) ↦ (
        kept,
        inr (
          schema,
          ground (arith, p),
          elim (Bool-cases (any (λ i. str_eq i.name index.name) schema.indexes)) [
            | inl q ↦ inl (q, ground (arith, p, q))
            | inr q ↦
                let schema' : TableSchema = record schema {
                  indexes = schema.indexes ++ index ∷ [];
                } in
                inr (
                  q,
                  ground (arith, p, q),
                  λ k. ground (arith, p, q, lookup-insert table k schema' c.tables),
                  ground (arith, p, q),
                )
          ],
        ),
      )
    ]

put_all-IsValid :
    (schemas : List TableSchema) (c : Catalog)
    → Distinct c.tables
    → All (λ entry. entry.1.name ≡ entry.0) c.tables
    → Distinct (put_all schemas c).tables
      × All (λ entry. entry.1.name ≡ entry.0) (put_all schemas c).tables
put_all-IsValid [] c d n = (d, n)
put_all-IsValid (schema ∷ schemas) c d n =
    put_all-IsValid schemas (put_table schema.name schema c)
      (insert-Distinct schema.name schema c.tables d) (put_table-named schema.name schema c refl n)

-- Loading any list of schemas, also one that names a table twice.
pub load_tables-IsValid :
    (schemas : List TableSchema) (c : Catalog) → IsValid c → IsValid (load_tables schemas c)
unfolding load_tables
load_tables-IsValid schemas c v =
    let (d, n) = put_all-IsValid schemas c v.distinct v.named in
    record { distinct = d; named = n; counted = refl }

-- A dropped table's indexes stay counted in `total_indexes`.
pub drop_table-total_indexes :
    (name : String) (c : Catalog)
    → (drop_table name c).1.stats.total_indexes ≡ c.stats.total_indexes
unfolding drop_table
drop_table-total_indexes name c = elim (Option-cases (Map.lookup name c.tables)) [
  | inl p ↦ ground (arith, p)
  | inr (schema, p) ↦ ground (arith, p)
]
