-- ===== src/Storage/Engine/Loaded.antt =====
-- `load_all`, `load_table` and `read_table_file` of moodeng-core/src/storage.rs with the default
-- options: a database opens on the files `{table}.dat`.
use moodeng_sql.Prelude.{
  String, none, some, [], ◌∷◌, ◌≡◌, ◌≢◌, refl, sym, ap, ◌∙◌, inl, inr, arith, string_key, dec_eq,
}
use moodeng_sql.Prelude.Map
use moodeng_sql.Prelude.Map.{Map, Distinct, lookup-insert}
use moodeng_sql.Prelude.Bytes.{Bytes}
use moodeng_sql.Error.{Result, ok, err, storage, Result-cases, ◌>>=◌}
use moodeng_sql.Wal.Defs.{Bincode}
use moodeng_sql.Wal.Log.{WriteAheadLog}
use moodeng_sql.Storage.Engine.{StorageEngine}
use moodeng_sql.Storage.Table
use moodeng_sql.Storage.Table.{TableData}

module _ {V : Type 0} (b : Bincode (TableData V)) where
  abbrev pub read_table_file : Bytes → Result (TableData V)
  read_table_file [] = ok Table.empty
  read_table_file (byte ∷ bytes) = elim (b.deserialize (byte ∷ bytes)) [
    | inl message ↦ err (storage message)
    | inr t ↦ ok t
  ]

  unfoldable pub load_each :
      Map String Bytes → Map String (TableData V) → Result (Map String (TableData V))
  load_each [] tables = ok tables
  load_each ((name, buf) ∷ files) tables = do
    t ← read_table_file buf
    load_each files (Map.insert name t tables)

  unfoldable pub load_all : Map String Bytes → Result (Map String (TableData V))
  unfolding load_each
  load_all files = load_each files []

  -- `open_with_options` with the default options, over the files of the data directory.
  unfoldable pub open_engine : WriteAheadLog → Map String Bytes → Result (StorageEngine V)
  unfolding load_all
  open_engine wal files = do
    tables ← load_all files
    ok (record { tables = tables; wal = wal; dat = files })

  read_table_file-serialize :
      (t : TableData V) (bytes : Bytes)
      → bytes ≡ b.serialize t
      → bytes ≢ []
      → read_table_file bytes ≡ ok t
  read_table_file-serialize t [] e full = absurd (full refl)
  read_table_file-serialize t (byte ∷ bytes) e full =
      let back : b.deserialize (byte ∷ bytes) ≡ inr t =
        ap b.deserialize e ∙ b.deserialize-serialize t in
      ground (arith, back)

  -- What happens to a table that no more file is of.
  load_each-absent :
      (files : Map String Bytes) (tables after : Map String (TableData V)) (k : String)
      → load_each files tables ≡ ok after
      → Map.lookup k files ≡ none
      → Map.lookup k after ≡ Map.lookup k tables
  unfolding load_each Map.lookup
  load_each-absent [] tables after k e p = ground (arith, e)
  load_each-absent ((name, buf) ∷ files) tables after k e p =
      elim (Result-cases (read_table_file buf)) [
        | inl (t, q) ↦
            load_each-absent files (Map.insert name t tables) after k (ground (arith, e, q))
              (ground (arith, p))
            ∙ ground (arith, p, lookup-insert name k t tables)
        | inr (m, q) ↦ absurd (ground (arith, e, q))
      ]

  load_each-there :
      (files : Map String Bytes) (tables after : Map String (TableData V)) (k : String)
      (t : TableData V)
      → load_each files tables ≡ ok after
      → Distinct files
      → Map.lookup k files ≡ some (b.serialize t)
      → b.serialize t ≢ []
      → Map.lookup k after ≡ some t
  unfolding load_each Map.lookup
  load_each-there [] tables after k t e d p full = absurd (ground (arith, p))
  load_each-there ((name, buf) ∷ files) tables after k t e d p full =
      elim (Result-cases (read_table_file buf)) [
        | inr (m, q) ↦ absurd (ground (arith, e, q))
        | inl (t', q) ↦
            let rest : load_each files (Map.insert name t' tables) ≡ ok after =
              ground (arith, e, q) in
            elim (dec_eq name k) [
              | no other ↦
                  load_each-there files (Map.insert name t' tables) after k t rest d.1
                    (ground (arith, p, other)) full
              | yes same ↦
                  let file : buf ≡ b.serialize t = ground (arith, p, same) in
                  let read : read_table_file buf ≡ ok t =
                    read_table_file-serialize t buf file (λ z. full (sym file ∙ z)) in
                  let gone : Map.lookup k files ≡ none = ground (arith, d, same) in
                  load_each-absent files (Map.insert name t' tables) after k rest gone
                  ∙ ground (arith, q, read, same, lookup-insert name k t' tables)
            ]
      ]

  -- A database that opens has every table whose encoding stands in its file.
  pub load_all-serialize :
      (files : Map String Bytes) (tables : Map String (TableData V)) (k : String) (t : TableData V)
      → load_all files ≡ ok tables
      → Distinct files
      → Map.lookup k files ≡ some (b.serialize t)
      → b.serialize t ≢ []
      → Map.lookup k tables ≡ some t
  unfolding load_all
  load_all-serialize files tables k t = load_each-there files [] tables k t
