-- ===== src/Tests/Counting.antt =====
-- Single presses over ints of 32 bits, and the clusters of times that are ints.
use keyfrog.Base.{pos, negsuc, ◌+ℤ◌, ◌≡◌, refl, true, List, [], ◌∷◌, All, arith, ltb_ℤ, ◌<◌}
use keyfrog.Storage.Backend.{sqlite_storage}
use keyfrog.Storage.Cluster.{is_int, get_cluster_start, cluster_size, get_cluster_start-is_int}
use keyfrog.Storage.Manager.Conserve.{Action, pressed, commits, run}
use keyfrog.Storage.Manager.Ints.{run_int, IsSingle, count_presses, run_int-eq-run}
use keyfrog.Tests.Instances.{boost, sqlite}
use keyfrog.Tests.Storing.{quiet}

abbrev schedule : List Action
schedule =
    pressed (pos 7) (pos 1000) (pos 1)
    ∷ pressed (pos 7) (pos 1001) (pos 1)
    ∷ commits
    ∷ pressed (pos 3) (negsuc 4) (pos 1)
    ∷ commits
    ∷ []

schedule-IsSingle : All (IsSingle boost (sqlite_storage sqlite)) schedule
schedule-IsSingle = (refl, (refl, (tt, (refl, (tt, tt)))))

few : count_presses boost (sqlite_storage sqlite) schedule < 2147483648
unfolding count_presses
few = omega arith

run_int-eq-run_example :
    run_int boost (sqlite_storage sqlite) schedule quiet
    ≡ run boost (sqlite_storage sqlite) schedule quiet
run_int-eq-run_example =
    run_int-eq-run boost (sqlite_storage sqlite) schedule quiet schedule-IsSingle few refl

-- The last second of the clock.
get_cluster_start-is_int_example :
    (is_int (get_cluster_start (pos 2147483647)) ≡ true)
    × (is_int (get_cluster_start (pos 2147483647) +ℤ pos cluster_size)
        ≡ ltb_ℤ (pos 2147483647) (pos 2147482800))
get_cluster_start-is_int_example = get_cluster_start-is_int (pos 2147483647) refl
