-- ===== src/Monitor/Recorded.antt =====
-- What a recorder that has connected records, and what the event filter then makes of it.
use keyfrog.Base.{
  ◌==◌, ℕ, ◌≡◌, Bool, true, false, ◌&&◌, ◌||◌, List, [], ◌∷◌, some, leb, if◌then◌else◌, arith,
}
use keyfrog.Base.Text.{Text}
use keyfrog.ErrorHandler.{init_handler}
use keyfrog.Monitor.{key_press, destroy_notify}
use keyfrog.Monitor.Connect.{Server, Range, Recorder, setup_record_extension, connect}

-- The RECORD extension delivers the events whose type lies in one of the ranges.
abbrev pub delivers : List Range → ℕ → Bool
delivers [] type = false
delivers (range ∷ rest) type =
    leb range.delivered_events.0 type && leb type range.delivered_events.1 || delivers rest type

-- Where connect of the monitor answers, it answers true exactly when both displays open; then both
-- are open, the ranges deliver the key presses and the ends of windows and no other type, and the
-- error handler is installed; else the control display is not open and the handlers are left as
-- they were.
pub delivers-connect :
    (x : Server) (name : Text) (r r' : Recorder) (answer : Bool)
    → connect x name r ≡ some (answer, r')
    → (r'.ctrl_display ≡ answer)
      × (answer ≡ x.opens_ctrl && x.opens_data)
      × (if answer
          then (r'.data_display ≡ true)
            × (r'.rec_context ≡ true)
            × ((type : ℕ)
                → delivers r'.rec_ranges type ≡ (type == key_press || type == destroy_notify))
            × (r'.handlers ≡ init_handler 1 r.handlers)
          else r'.handlers ≡ r.handlers)
unfolding connect setup_record_extension
delivers-connect x name r r' answer e = ground arith
