-- ===== src/Storage/Backend.antt =====
-- `StorageSqlite` as the storage behind the interface.
use keyfrog.Storage.{Storage, StorageLaws}
use keyfrog.Storage.Cluster.{get_cluster_start, get_cluster_start_idem}
use keyfrog.Storage.Sqlite.{Sqlite, SqliteLaws, add_key_press, stored}
use keyfrog.Storage.Sqlite.Adds.{add_key_press_adds, add_key_press_fails}

-- The virtual table of `StorageSqlite`, whose `addKeyPress` takes the time first.
abbrev pub sqlite_storage : Sqlite → Storage
sqlite_storage api = record {
  State = api.Db;
  get_cluster_start = get_cluster_start;
  add_key_press = add_key_press api;
}

unfoldable pub sqlite_storage_laws :
    (api : Sqlite) → SqliteLaws api → StorageLaws (sqlite_storage api)
sqlite_storage_laws api laws = record {
  recorded = stored api;
  idem = get_cluster_start_idem;
  adds = λ t g n db c' g' h. add_key_press_adds api laws t g n db h c' g';
  fails = λ t g n db c' g' h. add_key_press_fails api laws t g n db h c' g';
}
