-- ===== src/Storage/Sqlite/Adds.antt =====
-- What one call of `StorageSqlite::addKeyPress` does to the counts on record.
use keyfrog.Base.{
  none, false, ℤ, ◌+ℤ◌, pos, ◌≡◌, inl, inr, true, ◌&&◌, eq_ℤ, eq_ℤ_iff, if◌then◌else◌, Option-cases,
  arith, zero_+ℤ,
}
use keyfrog.Storage.Cluster.{get_cluster_start, cluster_size}
use keyfrog.Storage.Sqlite.{Sqlite, SqliteLaws, add_key_press, stored}

module _ (api : Sqlite) (laws : SqliteLaws api) where
  open api use {Db, count_at, update, insert}

  -- Counts after `n` more presses at one place.
  abbrev pub Added : (c g n : ℤ) (before after : ℤ → ℤ → ℤ) → Type 0
  Added c g n before after =
      (c' g' : ℤ)
      → after c' g' ≡ (if eq_ℤ c c' && eq_ℤ g g' then before c' g' +ℤ n else before c' g')

  abbrev pub Unchanged : (before after : ℤ → ℤ → ℤ) → Type 0
  Unchanged before after = (c' g' : ℤ) → after c' g' ≡ before c' g'

  -- Over a database that keeps the sqlite laws, an addKeyPress of StorageSqlite that succeeds adds
  -- its count at the cluster of its time and at its group, and changes no other count.
  pub add_key_press_adds :
      (t g n : ℤ) (db : Db)
      → (add_key_press api t g n db).0 ≡ true
      → Added (get_cluster_start t) g n (stored api db) (stored api (add_key_press api t g n db).1)
  unfolding add_key_press
  add_key_press_adds t g n db h c' g' =
      let c : ℤ = get_cluster_start t in
      let e : ℤ = c +ℤ pos cluster_size in
      let u = update n c g db in
      elim (Option-cases (count_at db c g)) [
        | inl absent ↦ ground (
          arith,
          eq_ℤ_iff c c',
          eq_ℤ_iff g g',
          zero_+ℤ n,
          (laws.update_missed n c g db absent).0,
          (laws.update_missed n c g db absent).1 c' g',
          laws.insert_done c e n g u.db,
          (λ (d : (insert c e n g u.db).done ≡ true). (laws.insert_done c e n g u.db d).2 c' g'),
        )
        | inr (m, present) ↦ ground (
          arith,
          eq_ℤ_iff c c',
          eq_ℤ_iff g g',
          (λ (d : u.done ≡ true). (laws.update_met n c g m db present d).0),
          (λ (d : u.done ≡ true). (laws.update_met n c g m db present d).1 c' g'),
          laws.update_failed n c g db c g,
          (λ (d : (insert c e n g u.db).done ≡ true). (laws.insert_done c e n g u.db d).0),
        )
      ]

  -- Over a database that keeps the sqlite laws, an addKeyPress of StorageSqlite that fails changes
  -- no count.
  pub add_key_press_fails :
      (t g n : ℤ) (db : Db)
      → (add_key_press api t g n db).0 ≡ false
      → Unchanged (stored api db) (stored api (add_key_press api t g n db).1)
  unfolding add_key_press
  add_key_press_fails t g n db h c' g' =
      let c : ℤ = get_cluster_start t in
      let e : ℤ = c +ℤ pos cluster_size in
      let u = update n c g db in
      elim (Option-cases (count_at db c g)) [
        | inl absent ↦ ground (
          arith,
          (laws.update_missed n c g db absent).1 c' g',
          laws.insert_failed c e n g u.db c' g',
          (λ (d : (insert c e n g u.db).done ≡ true). (laws.insert_done c e n g u.db d).1),
        )
        | inr (m, present) ↦ ground (
          arith,
          (λ (d : u.done ≡ true). (laws.update_met n c g m db present d).0),
          laws.update_failed n c g db c' g',
          laws.insert_failed c e n g u.db c' g',
          (λ (d : (insert c e n g u.db).done ≡ true). (laws.insert_done c e n g u.db d).1),
        )
      ]

  -- If every UPDATE finishes, and every INSERT of a row that is not there, then addKeyPress of
  -- StorageSqlite succeeds.
  pub add_key_press_succeeds :
      ((n c g : ℤ) (db : Db) → (update n c g db).done ≡ true)
      → ((c e n g : ℤ) (db : Db) → count_at db c g ≡ none → (insert c e n g db).done ≡ true)
      → (t g n : ℤ) (db : Db) → (add_key_press api t g n db).0 ≡ true
  unfolding add_key_press
  add_key_press_succeeds updates inserts t g n db =
      let c : ℤ = get_cluster_start t in
      let e : ℤ = c +ℤ pos cluster_size in
      let u = update n c g db in
      elim (Option-cases (count_at db c g)) [
        | inl absent ↦ ground (
          arith,
          (laws.update_missed n c g db absent).1 c g,
          inserts c e n g u.db,
          (λ (d : (insert c e n g u.db).done ≡ true). (laws.insert_done c e n g u.db d).1),
        )
        | inr (m, present) ↦ ground (
          arith,
          updates n c g db,
          (λ (d : u.done ≡ true). (laws.update_met n c g m db present d).0),
        )
      ]
