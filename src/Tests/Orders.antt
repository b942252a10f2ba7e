-- ===== src/Tests/Orders.antt =====
-- The same presses in two orders, with the committer's steps at two places.
use mathlib.Core.Quot
use keyfrog.Base.{ℤ, pos, ◌≡◌, ap, ◌∙◌, [], ◌∷◌, some}
use keyfrog.Storage.Backend.{sqlite_storage}
use keyfrog.Storage.Manager.{Manager}
use keyfrog.Storage.Manager.Conserve.{Action, pressed, commits, run}
use keyfrog.Storage.Manager.Totals.{Totals, add, add_comm, add-commits, drain, run-Totals}
use keyfrog.Tests.Instances.{boost, boost-laws, sqlite}
use keyfrog.Tests.Storing.{busy, busy-IsKeyed, keeps, reliable}

abbrev late : Action
late = pressed (pos 7) (pos 1000) (pos 1)

abbrev early : Action
early = pressed (pos 3) (pos 5) (pos 2)

same_totals :
    ◌≡◌ {A = Totals boost (sqlite_storage sqlite)}
      (Quot.mk (late ∷ commits ∷ early ∷ []))
      (Quot.mk (early ∷ late ∷ []))
unfolding add
same_totals =
    ap (add boost (sqlite_storage sqlite) late)
      (add-commits boost (sqlite_storage sqlite) (Quot.mk (early ∷ [])))
    ∙ add_comm boost (sqlite_storage sqlite) late early (Quot.mk [])

run-Totals_example :
    (m1 m2 d1 d2 : Manager boost (sqlite_storage sqlite)) × (run boost
        (sqlite_storage sqlite)
        (late ∷ commits ∷ early ∷ [])
        busy
      ≡ some m1)
    × (run boost (sqlite_storage sqlite) (early ∷ late ∷ []) busy ≡ some m2)
    × (run boost (sqlite_storage sqlite) (drain boost (sqlite_storage sqlite) m1) m1 ≡ some d1)
    × (run boost (sqlite_storage sqlite) (drain boost (sqlite_storage sqlite) m2) m2 ≡ some d2)
    × ((c g : ℤ) → keeps.recorded d1.backend c g ≡ keeps.recorded d2.backend c g)
run-Totals_example =
    run-Totals boost boost-laws (sqlite_storage sqlite) keeps reliable (late ∷ commits ∷ early ∷ [])
      (early ∷ late ∷ []) busy busy-IsKeyed same_totals
