-- ===== src/ErrorHandler.antt =====
-- src/XErrorUtil.cpp: the handler of X errors that Xlib calls.
use keyfrog.Base.{
  ℕ, zero, suc, ◌≡◌, refl, List, [], ◌∷◌, Option, none, some, arith, ◌==◌, if◌then◌else◌,
}

-- A handler that Xlib can hold: `errorHandler1`, or another that was there before, by a number.
pub data Handler : Type 0 where
  error_handler1 : Handler
  foreign : ℕ → Handler

-- `BadWindow` of X.h
abbrev pub bad_window : ℕ
bad_window = 3

-- What Xlib holds, and `m_x11ErrorHandler`, null at first.
pub record Handlers : Type 0 where
  pub installed : Handler
  pub saved : Option Handler

-- `XErrorUtil::initHandler`. `XSetErrorHandler` installs the handler and gives back the one before.
unfoldable pub init_handler : ℕ → Handlers → Handlers
init_handler id h =
    if id == 1
    then record {
      installed = error_handler1;
      saved = (elim h.saved [ none ↦ some h.installed | some s ↦ some s ]);
    }
    else h

-- How a call of a handler ends: with an answer of its own, in a foreign handler, through a null
-- pointer, or nowhere.
pub data Handled : Type 0 where
  ignored : Handled
  passed_to : ℕ → Handled
  null_call endless : Handled

-- `errorHandler1`, which passes on to the saved handler what is no `BadWindow`.
unfoldable pub call_handler : ℕ → Handlers → Handler → (error_code : ℕ) → Handled
call_handler fuel h (foreign n) code = passed_to n
call_handler zero h error_handler1 code = endless
call_handler (suc fuel) h error_handler1 code =
    let onward : Handled = (elim h.saved [
      | none ↦ null_call
      | some s ↦ call_handler fuel h s code
    ]) in
    if code == bad_window then ignored else onward

-- Calls of `initHandler` in a row, one for each connection to a server.
unfoldable pub init_all : List ℕ → Handlers → Handlers
unfolding init_handler
init_all [] h = h
init_all (id ∷ ids) h = init_all ids (init_handler id h)

-- The program's handler is installed, with the one before it saved.
abbrev IsChained : ℕ → Handlers → Type 0
IsChained n h = (h.installed ≡ error_handler1) × (h.saved ≡ some (foreign n))

init_all-IsChained :
    (n : ℕ) (ids : List ℕ) (h : Handlers) → IsChained n h → IsChained n (init_all ids h)
unfolding init_all
init_all-IsChained n [] h c = c
init_all-IsChained n (id ∷ ids) h c = init_all-IsChained n ids (init_handler id h) (ground arith)

-- After initHandler(1) and any further calls of initHandler the installed handler ignores a
-- BadWindow and passes every other error to the handler that was installed before the first call;
-- it never calls itself.
pub call_handler-init_all :
    (n fuel code : ℕ) (ids : List ℕ)
    → let h = init_all (1 ∷ ids) (record { installed = foreign n; saved = none }) in
      call_handler (suc (suc fuel)) h h.installed code
      ≡ (if code == bad_window then ignored else passed_to n)
unfolding call_handler
call_handler-init_all n fuel code ids =
    let start : Handlers = record { installed = error_handler1; saved = some (foreign n) } in
    let (i, s) = init_all-IsChained n ids start (refl, refl) in
    let first : init_all (1 ∷ ids) (record { installed = foreign n; saved = none })
        ≡ init_all ids start =
      unfold init_all in refl in
    rw first (ground (arith, i, s))
