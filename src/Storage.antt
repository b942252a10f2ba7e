-- ===== src/Storage.antt =====
-- src/Storage.h: what a storage promises. `Sqlite` and `Manager` are the two that the daemon stacks.
pub mod Cluster
pub mod Sqlite
pub mod Manager
pub mod Backend
use keyfrog.Base.{ℤ, ◌+ℤ◌, pos, ◌≡◌, Bool, true, false, ◌&&◌, eq_ℤ, if◌then◌else◌}

-- `getClusterStart` and `addKeyPress(int, int, int)`, the virtual methods that a storage calls on its
-- backend. The header names the first two ints app_group and timestamp; the arguments go by place.
pub record Storage : Type 1 where
  pub State : Type 0
  pub get_cluster_start : ℤ → ℤ
  pub add_key_press : (first second count : ℤ) → State → Bool × State

-- What a client may rely on: the first int is a time and the second a group.
pub record StorageLaws (storage : Storage) : Type 0 where
  pub recorded : storage.State → (cluster group : ℤ) → ℤ
  pub idem :
      (t : ℤ)
      → storage.get_cluster_start (storage.get_cluster_start t) ≡ storage.get_cluster_start t
  pub adds :
      (t g n : ℤ) (s : storage.State) (c' g' : ℤ)
      → (storage.add_key_press t g n s).0 ≡ true
      → recorded (storage.add_key_press t g n s).1 c' g' ≡ (
          if eq_ℤ (storage.get_cluster_start t) c' && eq_ℤ g g'
          then recorded s c' g' +ℤ n
          else recorded s c' g')
  pub fails :
      (t g n : ℤ) (s : storage.State) (c' g' : ℤ)
      → (storage.add_key_press t g n s).0 ≡ false
      → recorded (storage.add_key_press t g n s).1 c' g' ≡ recorded s c' g'
