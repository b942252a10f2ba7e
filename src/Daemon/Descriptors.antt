-- ===== src/Daemon/Descriptors.antt =====
-- The standard descriptors of a daemon in the background.
use keyfrog.Base.{ℕ, ◌<◌, ◌≡◌, Bool, not, true, ◌∙◌, none, some, arith, ◌==◌, if◌then◌else◌}
use keyfrog.Base.Key.{nat_key}
use keyfrog.Base.Map.{find, find-insert, find-erase}
use keyfrog.Base.Text.{Text}
use keyfrog.Daemon.Launch.{Descriptors, dup2, close_above, redirect}

find-dup2 :
    (source target k : ℕ) (fds : Descriptors) (file : Text)
    → find source fds ≡ some file
    → find k (dup2 source target fds) ≡ (if target == k then some file else find k fds)
unfolding dup2
find-dup2 source target k fds file e = rw (e, dup2) (find-insert target k file fds)

find-close_above :
    (test : Bool) (fd k : ℕ) (fds : Descriptors)
    → 2 < fd
    → find k (close_above test fd fds)
      ≡ (if test then (if fd == k then none else find k fds) else find k fds)
unfolding close_above
find-close_above test fd k fds h = ground (arith, find-erase fd k fds)

-- Where the two files of daemonize are open at descriptors above 2, which may be one and the same,
-- its end makes the error file the error stream and the output file the input and output streams,
-- closes the two descriptors, and leaves every other as it was.
pub find-redirect :
    (fd_err fd_out k : ℕ) (fds : Descriptors) (err out : Text)
    → find fd_err fds ≡ some err
    → find fd_out fds ≡ some out
    → 2 < fd_err
    → 2 < fd_out
    → find k (redirect fd_err fd_out fds) ≡ (
        if k == fd_err
        then none
        else if k == fd_out
        then none
        else if k == 2
        then some err
        else if k == 1
        then some out
        else if k == 0
        then some out
        else find k fds)
unfolding redirect
find-redirect fd_err fd_out k fds err out e o he ho =
    let d0 = dup2 fd_out 0 fds in
    let d1 = dup2 fd_out 1 d0 in
    let d2 = dup2 fd_err 2 d1 in
    let o0 : find fd_out d0 ≡ some out = find-dup2 fd_out 0 fd_out fds out o ∙ ground arith in
    let e0 : find fd_err d0 ≡ some err = find-dup2 fd_out 0 fd_err fds out o ∙ ground arith in
    let e1 : find fd_err d1 ≡ some err = find-dup2 fd_out 1 fd_err d0 out o0 ∙ ground arith in
    let c1 = find-close_above true fd_err k d2 he in
    let c2 = find-close_above (not (fd_err == fd_out)) fd_out k (close_above true fd_err d2) ho in
    let k0 = find-dup2 fd_out 0 k fds out o in
    let k1 = find-dup2 fd_out 1 k d0 out o0 in
    let k2 = find-dup2 fd_err 2 k d1 err e1 in ground arith
