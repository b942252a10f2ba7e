-- ===== src/Daemon/Records.antt =====
-- From events to rows: the main loop over the storage manager over the SQLite backend.
use keyfrog.Base.{
  zero, suc, suc, subst, ◌⊎◌, ℕ, ℤ, pos, ◌+ℤ◌, +ℤ_zero, ◌≡◌, refl, sym, ap, ◌∙◌, inl, inr, true,
  false, List, [], ◌∷◌, ◌++◌, none, some, arith, eq_ℤ, Option-cases, Bool-cases, All, replicate,
  length,
}
use keyfrog.Storage.{Storage, StorageLaws}
use keyfrog.Storage.Sqlite.{Sqlite, SqliteLaws, stored}
use keyfrog.Storage.Sqlite.Adds.{add_key_press_succeeds}
use keyfrog.Storage.Backend.{sqlite_storage, sqlite_storage_laws}
use keyfrog.Storage.Manager.{Boost, BoostLaws, Manager, press}
use keyfrog.Storage.Manager.Counts.{sum_at}
use keyfrog.Storage.Manager.Conserve.{commits, Action, IsKeyed, accounted, run, press-IsKeyed}
use keyfrog.Storage.Manager.Drain.{run_drains}
use keyfrog.Window.{KfWindowCache}
use keyfrog.Filter.{no_group}
use keyfrog.Event.{Event, EventType, kf_key_press, kf_destroy_notify, kf_focus_in}
use keyfrog.Daemon.{State, press_now, handle, handle_all}
use keyfrog.Daemon.Counts.{IsComplete, counted, handle_all-accounted, handle_all_returns}

-- Steps of the committer in a row, before and after a snapshot.
all_commits :
    (k n : ℕ)
    → (total : ℕ) × (replicate k commits ++ (commits ∷ replicate n commits)
        ≡ replicate total commits)
all_commits zero n = (suc n, refl)
all_commits (suc k) n = let (total, e) = all_commits k n in (suc total, ap (◌∷◌ commits) e)

module _ (boost : Boost) (storage : Storage) where
  -- A round presses once at most.
  handle-cases :
      (now : ℤ) (event : Event) (s s' : State boost storage)
      → handle boost storage now event s ≡ some s'
      → (s'.manager ≡ s.manager)
        ⊎ ((gid : ℤ) × (s'.manager ≡ press boost storage gid now (pos 1) s.manager))
  unfolding handle press_now
  handle-cases now event s s' e = elim (Option-cases event.type) [
    | inl unset ↦ absurd (ground arith)
    | inr (kind, is) ↦ by_kind kind is
  ]
    where
      by_kind :
          (kind : EventType)
          → event.type ≡ some kind
          → (s'.manager ≡ s.manager)
            ⊎ ((gid : ℤ) × (s'.manager ≡ press boost storage gid now (pos 1) s.manager))
      by_kind kf_key_press is = elim (Option-cases event.group_id) [
        | inl unset ↦ absurd (ground arith)
        | inr (gid, group) ↦ elim (Bool-cases (eq_ℤ gid no_group)) [
          | inl skip ↦ inl (ground arith)
          | inr count ↦ inr (gid, ground arith)
        ]
      ]
      by_kind kf_focus_in is = inl (ground arith)
      by_kind kf_destroy_notify is = inl (ground arith)

module _ (boost : Boost) (laws : BoostLaws boost) (storage : Storage)
    (keeps : StorageLaws storage) where
  pub handle-IsKeyed :
      (now : ℤ) (event : Event) (s s' : State boost storage)
      → handle boost storage now event s ≡ some s'
      → IsKeyed boost storage s.manager
      → IsKeyed boost storage s'.manager
  handle-IsKeyed now event s s' e keyed = elim (handle-cases boost storage now event s s' e) [
    | inl same ↦ subst (IsKeyed boost storage) (sym same) keyed
    | inr (gid, pressed) ↦
        subst (IsKeyed boost storage) (sym pressed)
          (press-IsKeyed boost laws storage keeps gid now (pos 1) s.manager keyed)
  ]

  handle_all-IsKeyed :
      (rounds : List (ℤ × Event)) (s s' : State boost storage)
      → handle_all boost storage rounds s ≡ some s'
      → IsKeyed boost storage s.manager
      → IsKeyed boost storage s'.manager
  unfolding handle_all
  handle_all-IsKeyed [] s s' e keyed = subst (IsKeyed boost storage) (ground arith) keyed
  handle_all-IsKeyed ((now, event) ∷ rest) s s' e keyed =
      elim (Option-cases (handle boost storage now event s)) [
        | inl stopped ↦ cc (rw (stopped, handle_all) at e)
        | inr (mid, handled) ↦
            handle_all-IsKeyed rest mid s' (rw (handled, handle_all) at e)
              (handle-IsKeyed now event s mid handled keyed)
      ]

module _ (boost : Boost) (laws : BoostLaws boost) (api : Sqlite) (sqlite : SqliteLaws api) where
  open api use {Db, count_at, update, insert}

  -- The daemon over a database, with nothing cached.
  abbrev pub started : Db → KfWindowCache → State boost (sqlite_storage api)
  started db windows = record {
    manager = record { cache = []; localcache = []; backend = db };
    windows = windows;
  }

  accounted-started :
      (db : Db) (windows : KfWindowCache) (c g : ℤ)
      → accounted boost laws
          (sqlite_storage api)
          (sqlite_storage_laws api sqlite)
          (started db windows).manager
          c
          g
        ≡ (sqlite_storage_laws api sqlite).recorded db c g
  unfolding accounted sum_at
  accounted-started db windows c g = +ℤ_zero _ ∙ +ℤ_zero _

  recorded_lem :
      (db : Db) (c g : ℤ) → (sqlite_storage_laws api sqlite).recorded db c g ≡ stored api db c g
  unfolding sqlite_storage_laws
  recorded_lem db c g = refl

  -- Some number of the committer's steps moves all that is accounted for to the database.
  pub drained :
      ((n c g : ℤ) (db : Db) → (update n c g db).done ≡ true)
      → ((c e n g : ℤ) (db : Db) → count_at db c g ≡ none → (insert c e n g db).done ≡ true)
      → (m : Manager boost (sqlite_storage api)) → IsKeyed boost (sqlite_storage api) m
      → (n : ℕ) × (m' : Manager boost (sqlite_storage api)) × (run boost
            (sqlite_storage api)
            (replicate n commits)
            m
          ≡ some m')
        × (m'.cache ≡ [])
        × (m'.localcache ≡ [])
        × ((c g : ℤ)
            → stored api m'.backend c g
              ≡ accounted boost laws (sqlite_storage api) (sqlite_storage_laws api sqlite) m c g)
  drained updates inserts m keyed =
      let storage : Storage = sqlite_storage api in
      let keeps = sqlite_storage_laws api sqlite in
      let reliable = add_key_press_succeeds api sqlite updates inserts in
      let (m', ran, empty, cleared, sums) = run_drains boost laws storage keeps reliable m keyed in
      let k = length m.localcache in
      let n = length m.cache in
      let (total, same) = all_commits k n in
      (
        total,
        m',
        subst (λ (a : List Action). run boost storage a m ≡ some m') same ran,
        cleared,
        empty,
        λ c g. sym (recorded_lem m'.backend c g) ∙ sums c g,
      )

  pub stored-started :
      (db : Db) (windows : KfWindowCache) (c g : ℤ)
      → accounted boost laws
          (sqlite_storage api)
          (sqlite_storage_laws api sqlite)
          (started db windows).manager
          c
          g
        ≡ stored api db c g
  stored-started db windows c g = accounted-started db windows c g ∙ recorded_lem db c g

  -- From a database with nothing cached, and with statements that finish, the main loop handles
  -- every list of complete events, and some number of the committer's steps then leaves both maps
  -- empty and, for each cluster and each group other than -1, the database with what it held before
  -- plus the key presses of that group that were handled in that cluster.
  pub handle_all_records :
      ((n c g : ℤ) (db : Db) → (update n c g db).done ≡ true)
      → ((c e n g : ℤ) (db : Db) → count_at db c g ≡ none → (insert c e n g db).done ≡ true)
      → (rounds : List (ℤ × Event)) (db : Db) (windows : KfWindowCache) (c g : ℤ)
      → All (λ (e : ℤ × Event). IsComplete e.1) rounds
      → eq_ℤ g no_group ≡ false
      → (s : State boost (sqlite_storage api)) × (handle_all boost
            (sqlite_storage api)
            rounds
            (started db windows)
          ≡ some s)
        × ((n : ℕ) × (m : Manager boost (sqlite_storage api)) × (run boost
                (sqlite_storage api)
                (replicate n commits)
                s.manager
              ≡ some m)
            × (m.cache ≡ [])
            × (m.localcache ≡ [])
            × (stored api m.backend c g
                ≡ stored api db c g +ℤ counted boost (sqlite_storage api) rounds c g))
  handle_all_records updates inserts rounds db windows c g complete proper =
      let storage : Storage = sqlite_storage api in
      let keeps = sqlite_storage_laws api sqlite in
      let start = started db windows in
      let (s, handled) = handle_all_returns boost storage rounds start complete in
      let keyed =
        handle_all-IsKeyed boost laws storage keeps rounds start s handled
          (record { cached = tt; copied = tt }) in
      let (n, m, ran, cleared, empty, sums) = drained updates inserts s.manager keyed in
      let total = handle_all-accounted boost laws storage keeps rounds start s c g proper handled in
      (
        s,
        handled,
        (
          n,
          m,
          ran,
          cleared,
          empty,
          sums c g
              ∙ total
              ∙ ap (λ a. a +ℤ counted boost storage rounds c g) (stored-started db windows c g),
        ),
      )
