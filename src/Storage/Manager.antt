-- ===== src/Storage/Manager.antt =====
-- src/StorageManager.cpp: key presses are counted in a cache, and a thread, the committer, moves the
-- counts to the backend. The two are modelled as steps in any order: `press` by the daemon's thread,
-- `commit_step` by the committer's, whose snapshot is taken under the mutex and so in one step.
pub mod Counts
pub mod Conserve
pub mod Drain
pub mod Ints
pub mod Totals
use keyfrog.Base.{
  ℕ, ℤ, ◌+ℤ◌, pos, ◌≡◌, Bool, List, [], ◌∷◌, ◌++◌, Option, none, some, get_elem?, if◌then◌else◌,
}
use keyfrog.Base.Text.{Text, Avoids, show_int, text_eq}
use keyfrog.Base.Key.{Key, text_key}
use keyfrog.Storage.{Storage}

-- The parts of Boost that the committer calls: `split` at a character and `lexical_cast<int>`, which
-- throws (`none`) on what is no int.
pub record Boost : Type 0 where
  pub split : ℕ → Text → List Text
  pub lexical_cast : Text → Option ℤ

-- Documented: a text with one delimiter has the two fields around it, and the cast reads what `<<`
-- writes.
pub record BoostLaws (boost : Boost) : Type 0 where
  pub split_pair :
      (c : ℕ) (s t : Text) → Avoids c s → Avoids c t → boost.split c (s ++ (c ∷ t)) ≡ s ∷ t ∷ []
  pub cast_show : (i : ℤ) → boost.lexical_cast (show_int i) ≡ some i

abbrev pub underscore : ℕ
underscore = b'_'

-- `stream << app_group << "_" << begin_cluster`
unfoldable pub cache_key : (app_group begin_cluster : ℤ) → Text
cache_key app_group begin_cluster = show_int app_group ++ (underscore ∷ show_int begin_cluster)

abbrev pub Cache : Type 0
Cache = List (Text × ℤ)

-- `m_cache[key] += count`, where a key that is not there starts from 0. Keys are kept in order.
unfoldable pub bump : Text → ℤ → Cache → Cache
bump k n [] = (k, pos 0 +ℤ n) ∷ []
bump k n ((j, w) ∷ m) =
    let rest = (j, w) ∷ bump k n m in
    if text_eq j k
    then (j, w +ℤ n) ∷ m
    else if text_key.lt k j
    then (k, pos 0 +ℤ n) ∷ (j, w) ∷ m
    else rest

infixl 5 ◌>>=◌
abbrev pub ◌>>=◌ {ℓ κ} : {A : Type ℓ} {B : Type κ} → Option A → (A → Option B) → Option B
none >>= f = none
some a >>= f = f a

module _ (boost : Boost) (storage : Storage) where
  -- `m_cache`, what is left of the committer's `localcache`, and the backend.
  pub record Manager : Type 0 where
    pub cache : Cache
    pub localcache : Cache
    pub backend : storage.State

  -- `StorageManager::addKeyPress(app_group, timestamp, count)`
  unfoldable pub press : (app_group timestamp count : ℤ) → Manager → Manager
  unfolding bump
  press app_group timestamp count m =
      let begin_cluster = storage.get_cluster_start timestamp in
      record m { cache = bump (cache_key app_group begin_cluster) count m.cache }

  -- The body of the committer's loop over `localcache`. `none` is an exception, or a read past the
  -- end of `result`: either ends the thread. The backend's answer is ignored.
  unfoldable pub send : Text → ℤ → storage.State → Option (storage.State)
  send key count s = do
    let result = boost.split underscore key
    first ← get_elem? result 0
    cluster_begin ← boost.lexical_cast first
    second ← get_elem? result 1
    app_group ← boost.lexical_cast second
    some (storage.add_key_press app_group cluster_begin count s).1

  -- The committer's next step: the snapshot, or one entry of it.
  unfoldable pub commit_step : Manager → Option Manager
  commit_step m = elim m.localcache [
    | [] ↦ some (record m { localcache = m.cache; cache = [] })
    | (key, count) ∷ rest ↦ do
      s ← send key count m.backend
      some (record m { localcache = rest; backend = s })
  ]
