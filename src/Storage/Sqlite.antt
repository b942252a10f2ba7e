-- ===== src/Storage/Sqlite.antt =====
-- src/StorageSqlite.cpp over the part of the sqlite3 library that it calls, which is a parameter.
pub mod Adds
pub mod Connect
use keyfrog.Base.{
  ℕ, ℤ, ◌+ℤ◌, pos, ◌≡◌, ◌≢◌, Bool, true, false, not, ◌&&◌, ◌||◌, Option, none, some, ◌==◌, eq_ℤ,
  if◌then◌else◌,
}
use keyfrog.Storage.Cluster.{get_cluster_start, cluster_size}

-- What `sqlite3_step` and `sqlite3_changes` tell after a statement: was the code `SQLITE_DONE`, how
-- many rows changed, and the database that is left.
pub record Step (Db : Type 0) : Type 0 where
  pub done : Bool
  pub changes : ℕ
  pub db : Db

-- The two prepared statements, with the values in the order of their question marks.
pub record Sqlite : Type 1 where
  pub Db : Type 0
  -- The `count` of the row with this `cluster_begin` and `app_group`; the index makes it unique.
  pub count_at : Db → ℤ → ℤ → Option ℤ
  -- UPDATE keypresses SET count = count + ? WHERE cluster_begin = ? AND app_group = ?
  pub update : ℤ → ℤ → ℤ → Db → Step Db
  -- INSERT INTO keypresses ( cluster_begin, cluster_end, count, app_group ) VALUES ( ?, ?, ?, ? )
  pub insert : ℤ → ℤ → ℤ → ℤ → Db → Step Db

-- What sqlite documents of these statements.
pub record SqliteLaws (api : Sqlite) : Type 0 where
  -- A finished UPDATE counts the rows it met, and changes no other.
  pub update_met :
      (n c g m : ℤ) (db : api.Db)
      → api.count_at db c g ≡ some m
      → (api.update n c g db).done ≡ true
      → ((api.update n c g db).changes ≡ 1)
        × ((c' g' : ℤ)
            → api.count_at (api.update n c g db).db c' g'
              ≡ (if eq_ℤ c c' && eq_ℤ g g' then some (m +ℤ n) else api.count_at db c' g'))
  pub update_missed :
      (n c g : ℤ) (db : api.Db)
      → api.count_at db c g ≡ none
      → ((api.update n c g db).done ≡ true → (api.update n c g db).changes ≡ 0)
        × ((c' g' : ℤ) → api.count_at (api.update n c g db).db c' g' ≡ api.count_at db c' g')
  -- A statement that fails is rolled back.
  pub update_failed :
      (n c g : ℤ) (db : api.Db) (c' g' : ℤ)
      → (api.update n c g db).done ≡ false
      → api.count_at (api.update n c g db).db c' g' ≡ api.count_at db c' g'
  pub insert_done :
      (c e n g : ℤ) (db : api.Db)
      → (api.insert c e n g db).done ≡ true
      → (api.count_at db c g ≡ none)
        × ((api.insert c e n g db).changes ≡ 1)
        × ((c' g' : ℤ)
            → api.count_at (api.insert c e n g db).db c' g'
              ≡ (if eq_ℤ c c' && eq_ℤ g g' then some n else api.count_at db c' g'))
  pub insert_failed :
      (c e n g : ℤ) (db : api.Db) (c' g' : ℤ)
      → (api.insert c e n g db).done ≡ false
      → api.count_at (api.insert c e n g db).db c' g' ≡ api.count_at db c' g'

module _ (api : Sqlite) where
  open api use {Db, count_at, update, insert}

  -- `if( rc != SQLITE_DONE || 0 == sqlite3_changes(m_db) )`
  abbrev pub missed : Step Db → Bool
  missed s = not s.done || s.changes == 0

  -- `StorageSqlite::addKeyPress(timestamp, app_group, count)`: an UPDATE first, and an INSERT if
  -- that changed no row.
  unfoldable pub add_key_press : (timestamp app_group count : ℤ) → Db → Bool × Db
  unfolding get_cluster_start
  add_key_press timestamp app_group count db =
      let cluster_begin = get_cluster_start timestamp in
      let cluster_end = cluster_begin +ℤ pos cluster_size in
      let updated = update count cluster_begin app_group db in
      let inserted = insert cluster_begin cluster_end count app_group updated.db in
      if missed updated
      then (if missed inserted then (false, inserted.db) else (true, inserted.db))
      else (true, updated.db)

  -- The key presses on record for a cluster and a group.
  abbrev pub stored : Db → ℤ → ℤ → ℤ
  stored db c g = elim (count_at db c g) [ none ↦ pos 0 | some n ↦ n ]
