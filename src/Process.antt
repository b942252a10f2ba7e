-- ===== src/Process.antt =====
-- src/ProcessProperties.h and src/ProcessMap.h, and the parts that use them.
pub mod Graph
pub mod Tree
pub mod Linux
pub mod Mac
pub mod Fbsd
pub mod Manager
pub mod Refresh
use keyfrog.Base.{ℤ, pos, Bool, false, List, []}
use keyfrog.Base.Text.{Text}

-- `struct ProcessProperties`
pub record Properties : Type 0 where
  pub pid : ℤ
  pub pid_str : Text
  pub name_known : Bool
  pub name : Text
  pub ppid_known : Bool
  pub ppid : ℤ
  pub ppid_str : Text

-- `ProcessProperties()`, which zeroes every member.
abbrev pub no_properties : Properties
no_properties = record {
  pid = pos 0;
  pid_str = [];
  name_known = false;
  name = [];
  ppid_known = false;
  ppid = pos 0;
  ppid_str = [];
}

-- `ProcessMap`: a `std::map` in the order of its pids.
abbrev pub ProcessMap : Type 0
ProcessMap = List (ℤ × Properties)
