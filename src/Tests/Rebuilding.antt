-- ===== src/Tests/Rebuilding.antt =====
-- The tree is built anew while a group is looked for.
use keyfrog.Base.{pos, negsuc, ◌≡◌, refl, [], ◌∷◌, ◌==◌, if◌then◌else◌}
use keyfrog.Base.Text.{text}
use keyfrog.Base.Map.{find, insert}
use keyfrog.Base.Set.{set_insert}
use keyfrog.Common.{string_eq_ci}
use keyfrog.Window.{
  new_cache, find_and_use_window, fetch_class_name, fetch_client_pid, resolve_class_name,
  resolve_client_pid,
}
use keyfrog.Process.Tree.{Tree, fetch_descendants, fetch_name}
use keyfrog.Filter.{match_proc, match_term_proc, match_window_class}
use keyfrog.Event.{ok, World, set_group_id, match_terminal, match_owner, is_pid, is_terminal}
use keyfrog.Event.Between.{set_group_id_between}
use keyfrog.Tests.Instances.{bgl}
use keyfrog.Tests.Filtering.{groups, world, tree, named, both_fetched}

-- The child has another parent now.
abbrev moved : Tree bgl
moved = record {
  graph = record { size = 2; properties = tree.graph.properties; edges = λ v. [] };
  ids = tree.ids;
}

-- At first a terminal with nothing in it, then a browser with an editor below: neither of the trees has
-- the group of the browser for the window, but the two reads together do.
abbrev before : World bgl
before = record world { tree = moved }

abbrev replaced : Tree bgl
replaced = record {
  graph = record {
    size = 2;
    properties =
        λ v. if v == 0 then named (pos 100) (text "firefox") else named (pos 101) (text "vim");
    edges = λ v. if v == 0 then 1 ∷ [] else [];
  };
  ids = tree.ids;
}

first : set_group_id bgl before groups 12 new_cache ≡ ok (negsuc 0, both_fetched)
unfolding set_group_id fetch_class_name fetch_client_pid find_and_use_window find insert
    fetch_descendants fetch_name match_proc match_term_proc match_window_class match_terminal
    match_owner is_pid is_terminal string_eq_ci resolve_class_name resolve_client_pid set_insert
first = refl

last :
    set_group_id bgl (record world { tree = replaced }) groups 12 new_cache
    ≡ ok (pos 7, both_fetched)
unfolding set_group_id fetch_class_name fetch_client_pid find_and_use_window find insert
    fetch_descendants fetch_name match_proc match_term_proc match_window_class match_terminal
    match_owner is_pid is_terminal string_eq_ci resolve_class_name resolve_client_pid set_insert
last = refl

mixed : set_group_id_between bgl before groups replaced 12 new_cache ≡ ok (pos 3, both_fetched)
unfolding set_group_id_between fetch_class_name fetch_client_pid find_and_use_window find insert
    fetch_descendants fetch_name match_proc match_term_proc match_window_class match_terminal
    match_owner is_pid is_terminal string_eq_ci resolve_class_name resolve_client_pid set_insert
mixed = refl
