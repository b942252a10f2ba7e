-- ===== src/Monitor/Connect.antt =====
-- `connect`, `setupRecordExtension`, `start` and `stop` of src/EventMonitorX11.cpp.
use keyfrog.Base.{
  ◌==◌, ℕ, suc, ℤ, pos, ltb_ℤ, Bool, true, false, not, ◌&&◌, ◌||◌, List, [], ◌∷◌, Option, none,
  some, if◌then◌else◌,
}
use keyfrog.Base.Text.{Text, text}
use keyfrog.ErrorHandler.{Handlers, init_handler}
use keyfrog.Monitor.{key_press, destroy_notify}

-- What the server and Xlib answer to one attempt: whether both displays open, whether there is the
-- RECORD extension, whether the two ranges and the context can be made, the vendor and its release,
-- and whether the context can be enabled and disabled.
pub record Server : Type 0 where
  pub opens_ctrl : Bool
  pub opens_data : Bool
  pub has_record : Bool
  pub allocates_first : Bool
  pub allocates_second : Bool
  pub vendor : Option Text
  pub release : ℤ
  pub creates_context : Bool
  pub enables : Bool
  pub disables : Bool

-- The members of `XRecordRange` that the program sets, each with its first and its last value.
pub record Range : Type 0 where
  pub delivered_events : ℕ × ℕ
  pub errors : ℕ × ℕ

-- `BadCursor` of X.h
abbrev pub bad_cursor : ℕ
bad_cursor = 6

-- `m_displayName`, whether `ctrlDisplay` and `dataDisplay` are open, `recRanges` and `recContext`,
-- whether the context is enabled, and the error handlers, which are static.
pub record Recorder : Type 0 where
  pub display_name : Text
  pub ctrl_display : Bool
  pub data_display : Bool
  pub rec_ranges : List Range
  pub rec_context : Bool
  pub enabled : Bool
  pub handlers : Handlers

-- `std::string::find`: the place of the first occurrence, if there is one.
abbrev pub starts_with : Text → Text → Bool
starts_with [] s = true
starts_with (a ∷ t) [] = false
starts_with (a ∷ t) (b ∷ s) = a == b && starts_with t s

unfoldable pub find_text : Text → Text → Option ℕ
find_text t [] = if starts_with t [] then some 0 else none
find_text t (c ∷ s) =
    let later : Option ℕ = elim (find_text t s) [ none ↦ none | some i ↦ some (suc i) ] in
    if starts_with t (c ∷ s) then some 0 else later

-- The place as a condition: only 0 is false, and the mark for no place, `npos`, is not 0.
abbrev pub is_nonzero : Option ℕ → Bool
is_nonzero none = true
is_nonzero (some i) = not (i == 0)

-- `applyFix`
unfoldable pub apply_fix : Option Text → ℤ → Bool
unfolding find_text
apply_fix vendor release =
    let xsv : Text = elim vendor [ none ↦ text "Unknown" | some s ↦ s ] in
    let new_enough = not (ltb_ℤ release (pos 70101000)) || not (ltb_ℤ (pos 50000000) release) in
    if is_nonzero (find_text (text "X.Org") xsv) && new_enough then false else true

-- A range of one type of events, which `XRecordAllocRange` has zeroed.
abbrev only_type : ℕ → ℕ × ℕ → Range
only_type type errors = record { delivered_events = (type, type); errors = errors }

-- `setupRecordExtension`; `none` is an exception.
unfoldable pub setup_record_extension : Server → Recorder → Option Recorder
unfolding apply_fix
setup_record_extension x r =
    let errors = if apply_fix x.vendor x.release then (bad_cursor, bad_cursor) else (0, 0) in
    let made : Recorder = record r {
      rec_ranges = only_type key_press errors ∷ only_type destroy_notify errors ∷ [];
      rec_context = true;
    } in
    if not x.has_record
    then none
    else if not x.allocates_first || not x.allocates_second
    then none
    else if not x.creates_context
    then none
    else some made

-- `connect`
unfoldable pub connect : Server → Text → Recorder → Option (Bool × Recorder)
unfolding setup_record_extension
connect x display_name r =
    let named : Recorder = record r { display_name = display_name } in
    let opened : Recorder = record named { ctrl_display = true; data_display = true } in
    let ready : Recorder = record opened { handlers = init_handler 1 opened.handlers } in
    let recording : Option (Bool × Recorder) = (elim (setup_record_extension x ready) [
      | none ↦ none
      | some r' ↦ some (true, r')
    ]) in
    if not x.opens_ctrl
    then some (false, record named { ctrl_display = false })
    else if not x.opens_data
    then some (false, record named { ctrl_display = false; data_display = false })
    else recording

-- `start` and `stop`; `none` is an exception.
unfoldable pub start : Server → Recorder → Option Recorder
start x r = if not x.enables then none else some (record r { enabled = true })

unfoldable pub stop : Server → Recorder → Option Recorder
stop x r = if not x.disables then none else some (record r { enabled = false })
