-- ===== src/Window/Server.antt =====
-- The part of Xlib that the window cache calls, as a server's answers at one time.
use keyfrog.Base.{ℕ, ℤ, Bool, Option}
use keyfrog.Base.Text.{Text}

-- `XClassHint`, where a member may be null.
pub record Hint : Type 0 where
  pub res_name : Option Text
  pub res_class : Option Text

pub record XServer : Type 0 where
  -- `XGetClassHint`, with `none` for an answer of 0
  pub class_hint : ℕ → Option Hint
  -- the root and the parent that `XQueryTree` finds, with `none` for an answer of 0
  pub query_tree : ℕ → Option (ℕ × ℕ)
  -- `XInternAtom` answered an atom for _NET_WM_PID
  pub has_pid_atom : Bool
  -- `XGetWindowProperty` answered `Success` and an item, with its value
  pub net_wm_pid : ℕ → Option ℤ
