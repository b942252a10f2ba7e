-- ===== src/Storage/Sqlite/Connect.antt =====
-- `connect` and `disconnect` of src/StorageSqlite.cpp and src/StorageManager.cpp.
use keyfrog.Base.{
  ℕ, suc, refl, ◌||◌, Option, none, some, ◌≡◌, Bool, true, false, not, ◌&&◌, if◌then◌else◌, arith,
}
use keyfrog.Base.Text.{Text}

-- What the calls of sqlite3 answer for a database: `sqlite3_open`, `sqlite3_exec` of the schema, and
-- `sqlite3_prepare` of the three statements, each `true` for `SQLITE_OK`; and whether `sqlite3_close`
-- closes a database with a number of statements that are not finalized.
pub record Answers : Type 0 where
  pub opens : Bool
  pub schema : Bool
  pub prepares_insert : Bool
  pub prepares_update : Bool
  pub prepares_exists : Bool
  pub closes : (unfinalized : ℕ) → Bool

-- Documented: `sqlite3_close` answers `SQLITE_BUSY`, and leaves the database open, exactly where a
-- statement is not finalized.
pub record AnswersLaws (db : Answers) : Type 0 where
  pub closes_idle : db.closes 0 ≡ true
  pub busy : (n : ℕ) → db.closes (suc n) ≡ false

-- `m_uri`, whether `m_db` is open, how many statements were prepared for it and not finalized, and
-- which of the statements were ever prepared.
pub record Connection : Type 0 where
  pub uri : Text
  pub is_open : Bool
  pub unfinalized : ℕ
  pub insert_set : Bool
  pub update_set : Bool
  pub exists_set : Bool

-- `initDatabase`, which does not look at a failure: the table may exist.
unfoldable pub init_database : Answers → Bool
init_database db = if db.schema then true else true

-- `prepareStatements`, which ends at the first statement that fails. Nothing finalizes a statement.
unfoldable pub prepare_statements : Answers → Connection → Bool × Connection
prepare_statements db c =
    let first : Connection = record c { insert_set = true; unfinalized = suc c.unfinalized } in
    let second : Connection = record first {
      update_set = true;
      unfinalized = suc first.unfinalized;
    } in
    let third : Connection = record second {
      exists_set = true;
      unfinalized = suc second.unfinalized;
    } in
    if not db.prepares_insert
    then (false, c)
    else if not db.prepares_update
    then (false, first)
    else if not db.prepares_exists
    then (false, second)
    else (true, third)

-- `sqlite3_close(m_db)`, whose answer is not looked at.
abbrev pub close : Answers → Connection → Connection
close db c = if db.closes c.unfinalized then record c { is_open = false } else c

-- `disconnect`. To close a handle that is closed is not defined (`none`).
unfoldable pub disconnect : Answers → Connection → Option Connection
disconnect db c = if c.is_open then some (close db c) else none

-- `connect`. It throws (`none`) where `initDatabase` fails. `m_db` is a new handle, also where
-- `sqlite3_open` fails.
unfoldable pub connect : Answers → Text → Connection → Option (Bool × Connection)
unfolding init_database prepare_statements
connect db uri c =
    let opened : Connection = record c { uri = uri; is_open = true; unfinalized = 0 } in
    let prepared = prepare_statements db opened in
    if not db.opens
    then some (false, close db opened)
    else if not (init_database db)
    then none
    else if not prepared.0
    then some (false, close db prepared.1)
    else some (true, prepared.1)

-- `StorageManager::connect`: the answer of the backend is not looked at.
unfoldable pub manager_connect : Answers → Text → Connection → Option (Bool × Connection)
unfolding connect
manager_connect db uri c = elim (connect db uri c) [ none ↦ none | some (_, c') ↦ some (true, c') ]

-- `StorageManager::disconnect`
unfoldable pub manager_disconnect : Answers → Connection → Option Connection
unfolding disconnect
manager_disconnect db c = disconnect db c

-- The database opens and every statement can be prepared.
abbrev pub all_answer : Answers → Bool
all_answer db = db.opens && (db.prepares_insert && (db.prepares_update && db.prepares_exists))

-- How many statements are prepared.
abbrev pub prepared_count : Answers → ℕ
prepared_count db =
    if not (db.opens && db.prepares_insert)
    then 0
    else if not db.prepares_update
    then 1
    else if not db.prepares_exists
    then 2
    else 3

-- What a connection comes to.
abbrev pub connected : Answers → Text → Connection → Connection
connected db uri c = record {
  uri = uri;
  is_open = db.opens && db.prepares_insert;
  unfinalized = prepared_count db;
  insert_set = c.insert_set || (db.opens && db.prepares_insert);
  update_set = c.update_set || (db.opens && (db.prepares_insert && db.prepares_update));
  exists_set = c.exists_set || all_answer db;
}

-- connect of StorageSqlite never throws; it answers true exactly when the database opens and all
-- three statements can be prepared; the database is then open, and also where it opens and the
-- first statement can be prepared; and a statement is newly set when it and those before it could be
-- prepared.
pub connect_lem :
    (db : Answers) (uri : Text) (c : Connection)
    → AnswersLaws db
    → connect db uri c ≡ some (all_answer db, connected db uri c)
unfolding connect
connect_lem db uri c laws = ground (arith, laws.closes_idle, laws.busy 0, laws.busy 1)

still_open :
    (db : Answers) (uri : Text) (c : Connection)
    → AnswersLaws db
    → manager_disconnect db (connected db uri c)
      ≡ (if db.opens && db.prepares_insert then some (connected db uri c) else none)
unfolding manager_disconnect
still_open db uri c laws = ground (arith, laws.closes_idle, laws.busy 0, laws.busy 1, laws.busy 2)

-- Where closing a database succeeds if no statement of it is left unfinalized, and leaves it open
-- otherwise: whether or not the database opens and its statements can be prepared, connect of
-- StorageManager answers true; the database is then open exactly where it opened and the first
-- statement could be prepared, also if a later one could not, with as many unfinalized statements
-- as were prepared; and disconnect changes nothing where it is open, and closes a handle that is
-- closed where it is not, which is undefined.
pub manager_connect_lem :
    (db : Answers) (uri : Text) (c : Connection)
    → AnswersLaws db
    → (c' : Connection) × (manager_connect db uri c ≡ some (true, c'))
      × (c'.is_open ≡ db.opens && db.prepares_insert)
      × (c'.unfinalized ≡ prepared_count db)
      × (manager_disconnect db c' ≡ (if db.opens && db.prepares_insert then some c' else none))
unfolding manager_connect
manager_connect_lem db uri c laws = (
  connected db uri c,
  rw (connect_lem db uri c laws, manager_connect),
  refl,
  refl,
  still_open db uri c laws,
)
