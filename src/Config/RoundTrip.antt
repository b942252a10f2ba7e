-- ===== src/Config/RoundTrip.antt =====
-- A configuration written out as XML is read back as its groups.
use keyfrog.Base.{ℤ, ◌≡◌, ap, ◌∙◌, List, [], ◌∷◌, ◌++◌, Option, none, some, if◌then◌else◌}
use mathlib.Core.List.{append-nil, append_assoc}
use keyfrog.Base.Text.{text_eq, Text, text, show_int}
use keyfrog.Base.Decimal.{atoi-show_int}
use keyfrog.Filter.{
  Group, FilterConfig, new_group, add_window_class, add_terminal_process, add_process, add_group,
}
use keyfrog.Config.{
  element, text_node, comment, Node, node, Nodes, end, cons, ok, process_rules, process_groups,
}

-- A group as it stands in a file: an id, and rules and comments.
pub data Item : Type 0 where
  window_class_name terminal_process_name process_name remark : Text → Item

pub data Section : Type 0 where
  group : ℤ → List Item → Section
  note : Text → Section

-- A node with one attribute, and one with none.
abbrev pub attribute : Text → Text → Text → Option Text
attribute name value key = if text_eq name key then some value else none

abbrev pub no_attributes : Text → Option Text
no_attributes key = none

abbrev pub render_comment : Text → Node
render_comment s = node comment (some (text "comment")) no_attributes (some s) end

abbrev pub render_text : Text → Nodes
render_text s = cons (node text_node (some (text "text")) no_attributes (some s) end) end

abbrev pub render_rule : Text → Text → Node
render_rule type s =
    node element (some (text "rule")) (attribute (text "type") type) none (render_text s)

unfoldable pub render_item : Item → Node
render_item (window_class_name s) = render_rule (text "windowClassName") s
render_item (terminal_process_name s) = render_rule (text "terminalProcessName") s
render_item (process_name s) = render_rule (text "processName") s
render_item (remark s) = render_comment s

unfoldable pub render_items : List Item → Nodes
unfolding render_item
render_items [] = end
render_items (i ∷ rest) = cons (render_item i) (render_items rest)

unfoldable pub render_section : Section → Node
unfolding render_items
render_section (group id items) =
    node element (some (text "group")) (attribute (text "id") (show_int id)) none
      (render_items items)
render_section (note s) = render_comment s

unfoldable pub render : List Section → Nodes
unfolding render_section
render [] = end
render (s ∷ rest) = cons (render_section s) (render rest)

-- The group that a section means: the names of each sort, in the order of their rules.
unfoldable pub names_of : (Item → List Text) → List Item → List Text
names_of sort [] = []
names_of sort (i ∷ rest) = sort i ++ names_of sort rest

abbrev pub classes : Item → List Text
classes (window_class_name s) = s ∷ []
classes _ = []

abbrev pub terminals : Item → List Text
terminals (terminal_process_name s) = s ∷ []
terminals _ = []

abbrev pub processes : Item → List Text
processes (process_name s) = s ∷ []
processes _ = []

abbrev pub meaning : ℤ → List Item → Group
meaning id items = record {
  id = id;
  window_classes = names_of classes items;
  term_procs = names_of terminals items;
  procs = names_of processes items;
}

unfoldable pub groups_of : List Section → FilterConfig
groups_of [] = []
groups_of (group id items ∷ rest) = meaning id items ∷ groups_of rest
groups_of (note s ∷ rest) = groups_of rest

process_rules-render_items :
    (items : List Item) (g : Group)
    → process_rules (render_items items) g
      ≡ ok (record g {
        window_classes = g.window_classes ++ names_of classes items;
        term_procs = g.term_procs ++ names_of terminals items;
        procs = g.procs ++ names_of processes items;
      })
unfolding process_rules render_items names_of add_window_class add_terminal_process add_process
process_rules-render_items [] g = simp append-nil
process_rules-render_items (window_class_name s ∷ rest) g =
    process_rules-render_items rest (add_window_class s g) ∙ simp append_assoc
process_rules-render_items (terminal_process_name s ∷ rest) g =
    process_rules-render_items rest (add_terminal_process s g) ∙ simp append_assoc
process_rules-render_items (process_name s ∷ rest) g =
    process_rules-render_items rest (add_process s g) ∙ simp append_assoc
process_rules-render_items (remark s ∷ rest) g = process_rules-render_items rest g

-- The XML form of a list of groups and comments is read by processGroups without an error, and adds
-- the groups in order, each with its id and its names of each sort in the order of its rules,
-- behind those that were there.
pub process_groups-render :
    (sections : List Section) (config : FilterConfig)
    → process_groups (render sections) config ≡ ok (config ++ groups_of sections)
unfolding process_groups render groups_of add_group
process_groups-render [] config = simp append-nil
process_groups-render (group id items ∷ rest) config =
    rw (atoi-show_int id, process_rules-render_items items (new_group id))
      (process_groups-render rest (config ++ meaning id items ∷ [])
        ∙ ap ok (append_assoc config (meaning id items ∷ []) (groups_of rest)))
process_groups-render (note s ∷ rest) config = process_groups-render rest config
