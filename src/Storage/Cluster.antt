-- ===== src/Storage/Cluster.antt =====
-- `getClusterStart` of src/StorageSqlite.cpp over C++ ints: the start of the fifteen minutes.
use keyfrog.Base.{
  Bool, true, ltb, ltb_ℤ, ℕ, ℤ, pos, negsuc, ◌-ℤ◌, rem_ℤ, ◌*◌, ◌≤ℤ◌, ◌+ℤ◌, ◌≡◌, arith,
}

-- `m_clusterSize = 15*60`, set by the constructor and by nothing else.
abbrev pub cluster_size : ℕ
cluster_size = 15 * 60

unfoldable pub get_cluster_start : ℤ → ℤ
unfolding ◌-ℤ◌
get_cluster_start timestamp = timestamp -ℤ rem_ℤ timestamp cluster_size

-- The start of a cluster is its own start, for times before 1970 too.
pub get_cluster_start_idem : (t : ℤ) → get_cluster_start (get_cluster_start t) ≡ get_cluster_start t
unfolding get_cluster_start
get_cluster_start_idem (pos t) = ground arith
get_cluster_start_idem (negsuc t) = ground arith

-- For a time from 1970 on the cluster's start is a multiple of 900 seconds, not after the time, and
-- at most 899 seconds before it.
pub get_cluster_start_bounds :
    (t : ℕ)
    → (get_cluster_start (pos t) ≤ℤ pos t)
      × (pos t ≤ℤ get_cluster_start (pos t) +ℤ pos 899)
      × (rem_ℤ (get_cluster_start (pos t)) cluster_size ≡ pos 0)
unfolding get_cluster_start ◌+ℤ◌
get_cluster_start_bounds t = ground arith

-- An int of 32 bits.
abbrev pub is_int : ℤ → Bool
is_int (pos n) = ltb n 2147483648
is_int (negsuc n) = ltb n 2147483648

-- For a time that is an int of 32 bits the cluster's start is one too, and its end is one exactly
-- for the times before 2147482800.
pub get_cluster_start-is_int :
    (t : ℤ)
    → is_int t ≡ true
    → (is_int (get_cluster_start t) ≡ true)
      × (is_int (get_cluster_start t +ℤ pos cluster_size) ≡ ltb_ℤ t (pos 2147482800))
unfolding get_cluster_start ◌+ℤ◌
get_cluster_start-is_int (pos t) h = ground arith
get_cluster_start-is_int (negsuc t) h = ground arith
