-- ===== src/Config.antt =====
-- src/ConfigReader.cpp, src/Options.h and src/Configuration.h: from the XML document to the groups
-- and the options.
pub mod OptionSet
pub mod RoundTrip
pub mod Keeps
use keyfrog.Base.{ℕ, ℤ, Bool, true, false, not, List, [], ◌∷◌, Option, none, some, if◌then◌else◌}
use keyfrog.Base.Text.{Text, text, text_eq}
use keyfrog.Base.Decimal.{atoi}
use keyfrog.Filter.{
  Group, FilterConfig, new_group, add_window_class, add_terminal_process, add_process, add_group,
}
use OptionSet.{
  Options, new_options, set_debug_state, set_debug_use_log_file, set_debug_use_std_err,
  set_debug_log_file, set_cluster_size,
}

-- `xmlNode::type`, as far as the reader tells types apart.
pub data Kind : Type 0 where
  element text_node comment other : Kind

-- `xmlNode`: type, name, the answers of `xmlGetProp`, content, children. A name, an answer or a content
-- may be null.
mutual
  pub data Node : Type 0 where
    node : Kind → Option Text → (Text → Option Text) → Option Text → Nodes → Node

  pub data Nodes : Type 0 where
    end : Nodes
    cons : Node → Nodes → Nodes

-- How reading ends: `threw` is an exception, and `crashed` the use of a null pointer.
pub data Read (A : Type 0) : Type 0 where
  ok : A → Read A
  threw crashed : Read A

infixl 5 ◌>>=◌
abbrev pub ◌>>=◌ : {A B : Type 0} → Read A → (A → Read B) → Read B
ok a >>= f = f a
threw >>= f = threw
crashed >>= f = crashed

-- `0==xmlStrcmp(name, s)`: a null string equals no name.
abbrev pub is_named : Text → Option Text → Bool
is_named name none = false
is_named name (some s) = text_eq name s

-- The test of a rule's children, which must be one text with no children, and the text.
unfoldable pub rule_text : Nodes → Read Text
rule_text (cons (node text_node _ _ content end) end) = elim content [
  | none ↦ crashed
  | some s ↦ ok s
]
rule_text _ = threw

-- One child of a group.
unfoldable pub process_rule : Node → Group → Read Group
unfolding rule_text
process_rule (node element name props _ children) g =
    let rule_type = props (text "type") in
    let window_class = (do s ← rule_text children; ok (add_window_class s g)) in
    let term_proc = (do s ← rule_text children; ok (add_terminal_process s g)) in
    let proc = (do s ← rule_text children; ok (add_process s g)) in
    if not (is_named (text "rule") name)
    then threw
    else if is_named (text "windowClassName") rule_type
    then window_class
    else if is_named (text "terminalProcessName") rule_type
    then term_proc
    else if is_named (text "processName") rule_type
    then proc
    else ok g
process_rule _ g = ok g

unfoldable pub process_rules : Nodes → Group → Read Group
unfolding process_rule
process_rules end g = ok g
process_rules (cons rule rest) g = process_rule rule g >>= λ g'. process_rules rest g'

-- The element that should be a group. `atoi` of a null attribute is a crash.
unfoldable pub process_group : Node → FilterConfig → Read FilterConfig
unfolding process_rules
process_group (node kind name props _ children) config =
    let group = (do
      id ← (elim (props (text "id")) [ none ↦ crashed | some s ↦ ok (atoi s) ])
      g ← process_rules children (new_group id)
      ok (add_group g config)) in
    if is_named (text "group") name then group else threw

-- `processGroups`
unfoldable pub process_groups : Nodes → FilterConfig → Read FilterConfig
unfolding process_group
process_groups end config = ok config
process_groups (cons (node comment name props content children) rest) config =
    process_groups rest config
process_groups (cons group rest) config =
    process_group group config >>= λ config'. process_groups rest config'

-- `opt = _opt ? _opt : "off"`
abbrev pub or_off : Option Text → Text
or_off none = text "off"
or_off (some s) = s

-- "off" and "on" set a flag, and any other text leaves it.
unfoldable pub set_flag : Text → (Bool → Options → Options) → Options → Options
set_flag opt set_to o =
    if text_eq opt (text "off")
    then set_to false o
    else if text_eq opt (text "on")
    then set_to true o
    else o

-- The attributes of the debug element.
unfoldable pub process_debug : (Text → Option Text) → Options → Options
unfolding set_flag
process_debug props o =
    let first = set_flag (or_off (props (text "state"))) set_debug_state o in
    let second = set_flag (or_off (props (text "uselogfile"))) set_debug_use_log_file first in
    let third = set_flag (or_off (props (text "usestderr"))) set_debug_use_std_err second in
    elim (props (text "logfile")) [ none ↦ third | some s ↦ set_debug_log_file s third ]

-- The attribute of the cluster element.
unfoldable pub process_cluster : (Text → Option Text) → Options → Options
process_cluster props o = elim (props (text "size")) [
  | none ↦ o
  | some s ↦ set_cluster_size (atoi s) o
]

-- `processOptions`, which looks at the name of a node and not at its type.
unfoldable pub process_options : Nodes → Options → Options
unfolding process_debug process_cluster
process_options end o = o
process_options (cons (node kind name props content children) rest) o = process_options rest (
    if is_named (text "debug") name
    then process_debug props o
    else if is_named (text "cluster") name
    then process_cluster props o
    else o)

-- `Configuration`: three paths, and the two packs that the reader fills.
pub record Configuration : Type 0 where
  pub sqlite_db_file_path : Text
  pub home_dir : Text
  pub config_path : Text
  pub filter_config : FilterConfig
  pub options : Options

-- `Configuration()`
abbrev pub new_configuration : Configuration
new_configuration = record {
  sqlite_db_file_path = [];
  home_dir = [];
  config_path = [];
  filter_config = [];
  options = new_options;
}

-- One child of the root.
unfoldable pub process_section : Node → Configuration → Read Configuration
unfolding process_groups process_options
process_section (node element name props content children) c =
    let groups = (do
      filter ← process_groups children c.filter_config
      ok (record c { filter_config = filter })) in
    let grouped = if is_named (text "application-groups") name then groups else ok c in
    grouped >>= λ c'. ok (
      if is_named (text "options") name
      then record c' { options = process_options children c'.options }
      else c')
process_section _ c = ok c

unfoldable pub process_sections : Nodes → Configuration → Read Configuration
unfolding process_section
process_sections end c = ok c
process_sections (cons section rest) c =
    process_section section c >>= λ c'. process_sections rest c'

-- `readConfig`, from what `xmlReadFile` and `xmlDocGetRootElement` give: with no document the root is
-- null, and its children are read all the same.
unfoldable pub read_config : Option Node → Configuration → Read Configuration
unfolding process_sections
read_config none c = crashed
read_config (some (node kind name props content children)) c = process_sections children c
