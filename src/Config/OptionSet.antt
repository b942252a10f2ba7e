-- ===== src/Config/OptionSet.antt =====
-- src/Options.h and src/Options.cpp.
use keyfrog.Base.{ℤ, Bool, true, false, Option, none, some}
use keyfrog.Base.Text.{Text, text}

-- `none` is a member that the constructor does not set.
pub record Options : Type 0 where
  pub debug_state : Bool
  pub debug_use_log_file : Bool
  pub debug_use_std_err : Bool
  pub daemon_mode : Option Bool
  pub debug_log_file : Text
  pub cluster_size : Option ℤ
  pub user_home_dir : Text

-- `Options()`. Its `int m_clusterSize = 15*60` declares a variable of its own, so that the member of
-- that name is left unset.
unfoldable pub new_options : Options
new_options = record {
  debug_state = false;
  debug_use_log_file = false;
  debug_use_std_err = true;
  daemon_mode = none;
  debug_log_file = text "/tmp/keyfrog-debug.log";
  cluster_size = none;
  user_home_dir = text "/tmp";
}

abbrev pub set_debug_state : Bool → Options → Options
set_debug_state v o = record o { debug_state = v }

abbrev pub set_debug_use_log_file : Bool → Options → Options
set_debug_use_log_file v o = record o { debug_use_log_file = v }

abbrev pub set_debug_use_std_err : Bool → Options → Options
set_debug_use_std_err v o = record o { debug_use_std_err = v }

abbrev pub set_debug_log_file : Text → Options → Options
set_debug_log_file v o = record o { debug_log_file = v }

abbrev pub set_cluster_size : ℤ → Options → Options
set_cluster_size v o = record o { cluster_size = some v }

abbrev pub set_daemon_mode : Bool → Options → Options
set_daemon_mode v o = record o { daemon_mode = some v }
