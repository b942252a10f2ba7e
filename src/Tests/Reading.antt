-- ===== src/Tests/Reading.antt =====
-- A configuration, a line of the proc file system, and an X error.
use keyfrog.Base.{pos, ◌≡◌, refl, true, false, List, [], ◌∷◌, ◌++◌, none, some, ◌==◌, if◌then◌else◌}
use keyfrog.Base.Text.{Text, text, text_eq}
use keyfrog.Config.{ok, process_groups}
use keyfrog.Config.RoundTrip.{
  window_class_name, process_name, remark, Section, group, note, render, groups_of,
  process_groups-render,
}
use keyfrog.Process.{no_properties}
use keyfrog.Process.Linux.{LexicalCast, ProcFs, set_process_properties}
use keyfrog.Process.Linux.Stat.{
  stat_line, unknown, set_process_properties-stat_line, set_process_properties-space_in_name,
}
use keyfrog.ErrorHandler.{
  foreign, init_all, call_handler, bad_window, ignored, passed_to, call_handler-init_all,
}

abbrev sections : List Section
sections =
    note (text " editors ")
    ∷ group (pos 7)
        (window_class_name (text "Gvim") ∷ remark (text "sic") ∷ process_name (text "vim") ∷ [])
    ∷ group (pos 3) []
    ∷ []

process_groups-render_example : process_groups (render sections) [] ≡ ok ([] ++ groups_of sections)
process_groups-render_example = process_groups-render sections []

call_handler-init_all_example :
    let h = init_all (1 ∷ 1 ∷ []) (record { installed = foreign 5; saved = none }) in
    call_handler 2 h h.installed 8 ≡ (if 8 == bad_window then ignored else passed_to 5)
call_handler-init_all_example = call_handler-init_all 5 0 8 (1 ∷ [])

-- Casts that know two numbers.
abbrev cast : LexicalCast
cast = record {
  to_int = λ s. if text_eq s (text "1") then some (pos 1) else none;
  to_text = λ i. text "42";
}

-- The process 42, of a given name.
abbrev proc : Text → ProcFs
proc name = record {
  entries = (text "42", true) ∷ [];
  stat = λ s. some (stat_line (text "42") name (text "S") (text "1") (text "42 0"));
}

set_process_properties-stat_line_example :
    set_process_properties cast (proc (text "vim")) (pos 42) unknown no_properties ≡ (
      true,
      record {
        pid = pos 42;
        pid_str = text "42";
        name_known = true;
        name = text "vim";
        ppid_known = true;
        ppid = pos 1;
        ppid_str = text "1";
      },
    )
set_process_properties-stat_line_example =
    set_process_properties-stat_line cast (proc (text "vim")) (pos 42) no_properties b'4' b'S' b'1'
      (text "2") (text "vim") [] [] (text "42 0") (pos 1) (refl, (refl, tt))
      (refl, (refl, (refl, tt))) (refl, tt) (refl, tt) refl refl

set_process_properties-space_in_name_example :
    set_process_properties cast (proc (text "tmux s")) (pos 42) unknown no_properties ≡ (
      false,
      record no_properties {
        pid = pos 42;
        pid_str = text "42";
        name_known = true;
        name = text "tmu";
      },
    )
set_process_properties-space_in_name_example =
    set_process_properties-space_in_name cast (proc (text "tmux s")) (pos 42) no_properties b'4'
      b'S' b's' (text "2") (text "tmux") [] [] (text "1") (text "42 0") (refl, (refl, tt))
      (refl, (refl, (refl, (refl, tt)))) (refl, tt) (refl, tt) refl refl refl
