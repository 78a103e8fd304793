-- ===== src/Tests/Stored.antt =====
-- The storage theorems at small databases.
use moodeng_sql.Prelude.{
  ℕ, String, true, none, some, [], ◌∷◌, ◌≡◌, ◌≢◌, refl, ◌⊎◌, arith, string_key, nat_key,
}
use moodeng_sql.Prelude.Map
use moodeng_sql.Prelude.Sort.{IsAscending}
use moodeng_sql.Error.{ok, err, version_conflict}
use moodeng_sql.Types.{Row, new}
use moodeng_sql.Types.Value.{Value}
use moodeng_sql.Wal.Log.{WriteAheadLog}
use moodeng_sql.Storage.Table
use moodeng_sql.Storage.Table.{TableData}
use moodeng_sql.Storage.Table.Laws.{IsValid, scan_lem, id_of}
use moodeng_sql.Storage.Engine.{StorageEngine, get, insert, update, checkpoint}
use moodeng_sql.Storage.Engine.Checkpointed.{IsCheckpoint, checkpoint_lem}
use moodeng_sql.Storage.Engine.Writes.{insert_stores, no_lost_update}
use moodeng_sql.Storage.Engine.Loaded.{load_all, load_each, load_all-serialize}
use moodeng_sql.Tests.Coder.{codecs}

abbrev pub alice : Row (Value String)
alice = new (Value.int4 1 ∷ Value.text "alice" ∷ [])

abbrev pub bob : Row (Value String)
bob = new (Value.int4 2 ∷ Value.text "bob" ∷ [])

abbrev pub users : TableData (Value String)
users = record { rows = (2, bob) ∷ (1, alice) ∷ []; next_id = 3 }

abbrev pub fresh_log : WriteAheadLog
fresh_log = record {
  file = [];
  synced = 0;
  checkpoint_file = none;
  lsn = 0;
  next_txn_id = 1;
  ops_since_checkpoint = 0;
  unsynced_writes = 0;
  checkpoint_lsn = 0;
}

abbrev pub engine : StorageEngine (Value String)
engine = record { tables = ("users", users) ∷ []; wal = fresh_log; dat = [] }

pub users-IsValid : IsValid users
unfolding Map.lookup native.Mathlib.Decide.ℕ_discrete
users-IsValid = record {
  distinct = (refl, (refl, tt));
  given_out = (omega arith, (omega arith, tt));
}

pub users-there : Map.lookup "users" engine.tables ≡ some users
unfolding Map.insert
users-there = Map.lookup-insert_self "users" users []

pub alice-there : get "users" 1 engine ≡ some alice
unfolding get Table.get Map.lookup
alice-there = ground (arith, users-there)

scan_lem_example :
    IsAscending id_of (Table.scan users)
    × ((id : ℕ) → Map.lookup id (Table.scan users) ≡ Table.get id users)
scan_lem_example = scan_lem users users-IsValid

insert_stores_example :
    let (r, e') = insert codecs "users" bob 7 engine in
    (r ≡ ok 3)
    × (get "users" 3 engine ≡ none)
    × (get "users" 3 e' ≡ some bob)
    × ((k : String) (id : ℕ) → ("users" ≢ k) ⊎ (3 ≢ id) → get k id e' ≡ get k id engine)
insert_stores_example = insert_stores codecs "users" bob 7 engine users-there users-IsValid

no_lost_update_example :
    let (r, e') = update codecs "users" 1 bob 7 1 engine in
    (r ≡ ok true) × (update codecs "users" 1 alice 8 1 e' ≡ (err (version_conflict "users" 1), e'))
no_lost_update_example = no_lost_update codecs "users" 1 bob alice 7 8 engine alice-there

checkpoint_lem_example :
    ((checkpoint codecs engine).0 ≡ ok tt) × IsCheckpoint codecs engine (checkpoint codecs engine).1
checkpoint_lem_example = checkpoint_lem codecs engine

users-encoded : codecs.tables.serialize users ≢ []
unfolding codecs
users-encoded e = ground (arith, e)

users-loaded :
    load_all codecs.tables (("users", codecs.tables.serialize users) ∷ [])
    ≡ ok (("users", users) ∷ [])
unfolding codecs load_all load_each Map.insert
users-loaded = refl

users-stored :
    Map.lookup {K = String} "users" (("users", codecs.tables.serialize users) ∷ [])
    ≡ some (codecs.tables.serialize users)
unfolding Map.insert
users-stored = Map.lookup-insert_self {K = String} "users" (codecs.tables.serialize users) []

load_all-serialize_example : Map.lookup {K = String} "users" (("users", users) ∷ []) ≡ some users
unfolding Map.lookup
load_all-serialize_example =
    load_all-serialize codecs.tables (("users", codecs.tables.serialize users) ∷ [])
      (("users", users) ∷ []) "users" users users-loaded (refl, tt) users-stored users-encoded
