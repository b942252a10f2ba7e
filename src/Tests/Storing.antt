-- ===== src/Tests/Storing.antt =====
-- Counting: the storages on a few key presses.
use keyfrog.Base.{
  arith, ◌==◌, ◌&&◌, eq_ℤ, if◌then◌else◌, ℤ, pos, ◌+ℤ◌, ◌≡◌, refl, true, false, List, [], ◌∷◌,
  Option, some,
}
use keyfrog.Base.Text.{text}
use keyfrog.Storage.{StorageLaws}
use keyfrog.Storage.Cluster.{get_cluster_start}
use keyfrog.Storage.Sqlite.{add_key_press, stored}
use keyfrog.Storage.Sqlite.Adds.{add_key_press_adds, add_key_press_succeeds}
use keyfrog.Storage.Backend.{sqlite_storage, sqlite_storage_laws}
use keyfrog.Storage.Manager.{Manager, cache_key}
use keyfrog.Storage.Manager.Conserve.{
  Action, pressed, commits, IsKeyed, run, presses, accounted, run-accounted,
}
use keyfrog.Storage.Manager.Drain.{run_drains}
use keyfrog.Storage.Sqlite.Connect.{
  Answers, AnswersLaws, Connection, manager_connect, manager_disconnect, manager_connect_lem,
}
use keyfrog.Tests.Instances.{
  updates_finish, inserts_finish, locked, boost, boost-laws, sqlite, sqlite-laws, no_rows, put,
}

-- The table after three presses of group 7 in the cluster that starts at 900.
abbrev pub three : ℤ → ℤ → Option ℤ
three = put (pos 900) (pos 7) (pos 3) no_rows

succeeds : (add_key_press sqlite (pos 1000) (pos 7) (pos 2) three).0 ≡ true
unfolding add_key_press
succeeds = refl

add_key_press_adds_example :
    stored sqlite (add_key_press sqlite (pos 1000) (pos 7) (pos 2) three).1 (pos 900) (pos 7) ≡ (
      if eq_ℤ (get_cluster_start (pos 1000)) (pos 900) && eq_ℤ (pos 7) (pos 7)
      then stored sqlite three (pos 900) (pos 7) +ℤ pos 2
      else stored sqlite three (pos 900) (pos 7))
add_key_press_adds_example =
    add_key_press_adds sqlite sqlite-laws (pos 1000) (pos 7) (pos 2) three succeeds (pos 900)
      (pos 7)

-- A manager over the table, with nothing cached.
abbrev pub quiet : Manager boost (sqlite_storage sqlite)
quiet = record { cache = []; localcache = []; backend = three }

abbrev pub keeps : StorageLaws (sqlite_storage sqlite)
keeps = sqlite_storage_laws sqlite sqlite-laws

abbrev schedule : List Action
schedule =
    pressed (pos 7) (pos 1000) (pos 2) ∷ commits ∷ pressed (pos 3) (pos 5) (pos 1) ∷ commits ∷ []

quiet-IsKeyed : IsKeyed boost (sqlite_storage sqlite) quiet
quiet-IsKeyed = record { cached = tt; copied = tt }

refused_call : (add_key_press locked (pos 1000) (pos 7) (pos 2) three).0 ≡ false
unfolding add_key_press
refused_call = refl

pub reliable : (t g n : ℤ) (db : ℤ → ℤ → Option ℤ) → (add_key_press sqlite t g n db).0 ≡ true
reliable t g n db = add_key_press_succeeds sqlite sqlite-laws updates_finish inserts_finish t g n db

run-accounted_example :
    (m' : Manager boost (sqlite_storage sqlite)) × (run boost (sqlite_storage sqlite) schedule quiet
      ≡ some m')
    × IsKeyed boost (sqlite_storage sqlite) m'
    × ((c g : ℤ)
        → accounted boost boost-laws (sqlite_storage sqlite) keeps m' c g
          ≡ accounted boost boost-laws (sqlite_storage sqlite) keeps quiet c g
            +ℤ presses boost (sqlite_storage sqlite) schedule c g)
run-accounted_example =
    run-accounted boost boost-laws (sqlite_storage sqlite) keeps reliable schedule quiet
      quiet-IsKeyed

-- A manager with one count in its cache and another in the committer's snapshot.
abbrev pub busy : Manager boost (sqlite_storage sqlite)
busy = record {
  cache = (cache_key (pos 7) (pos 900), pos 2) ∷ [];
  localcache = (cache_key (pos 3) (pos 0), pos 1) ∷ [];
  backend = three;
}

pub busy-IsKeyed : IsKeyed boost (sqlite_storage sqlite) busy
unfolding get_cluster_start
busy-IsKeyed = record {
  cached = ((pos 7, pos 900, refl, refl), tt);
  copied = ((pos 3, pos 0, refl, refl), tt);
}

run_drains_example :
    (m' : Manager boost (sqlite_storage sqlite)) × (run boost
        (sqlite_storage sqlite)
        (commits ∷ commits ∷ commits ∷ [])
        busy
      ≡ some m')
    × (m'.localcache ≡ [])
    × (m'.cache ≡ [])
    × ((c g : ℤ)
        → keeps.recorded m'.backend c g
          ≡ accounted boost boost-laws (sqlite_storage sqlite) keeps busy c g)
run_drains_example =
    run_drains boost boost-laws (sqlite_storage sqlite) keeps reliable busy busy-IsKeyed

-- A database with a table of the same name that has no column for an id.
abbrev other_table : Answers
other_table = record {
  opens = true;
  schema = false;
  prepares_insert = true;
  prepares_update = true;
  prepares_exists = false;
  closes = λ n. n == 0;
}

other_table_laws : AnswersLaws other_table
other_table_laws = record { closes_idle = refl; busy = λ n. ground arith }

abbrev unconnected : Connection
unconnected = record {
  uri = [];
  is_open = false;
  unfinalized = 0;
  insert_set = false;
  update_set = false;
  exists_set = false;
}

manager_connect_lem_example :
    (c' : Connection) × (manager_connect other_table (text "keys.db") unconnected ≡ some (true, c'))
    × (c'.is_open ≡ true)
    × (c'.unfinalized ≡ 2)
    × (manager_disconnect other_table c' ≡ some c')
manager_connect_lem_example =
    manager_connect_lem other_table (text "keys.db") unconnected other_table_laws
