-- ===== src/Config/Keeps.antt =====
-- What reading a configuration leaves alone: the daemon mode and the three paths.
use keyfrog.Base.{
  ◌≡◌, refl, ◌∙◌, ◌⊎◌, inl, inr, Bool, true, false, Option, none, some, arith, if◌then◌else◌,
}
use keyfrog.Base.Text.{Text, text}
use keyfrog.Config.{
  process_groups, ◌>>=◌, is_named, FilterConfig, Node, node, Nodes, end, cons, element, text_node,
  comment, other, Read, ok, threw, crashed, Configuration, process_debug, process_cluster,
  process_options, process_section, process_sections, read_config,
}
use keyfrog.Config.OptionSet.{Options}

pub Read-cases : {A : Type 0} (r : Read A) → ((a : A) × (r ≡ ok a)) ⊎ ((r ≡ threw) ⊎ (r ≡ crashed))
Read-cases (ok a) = inl (a, refl)
Read-cases threw = inr (inl refl)
Read-cases crashed = inr (inr refl)

process_debug-daemon_mode :
    (props : Text → Option Text) (o : Options) → (process_debug props o).daemon_mode ≡ o.daemon_mode
unfolding process_debug
process_debug-daemon_mode props o = ground arith

process_cluster-daemon_mode :
    (props : Text → Option Text) (o : Options)
    → (process_cluster props o).daemon_mode ≡ o.daemon_mode
unfolding process_cluster
process_cluster-daemon_mode props o = ground arith

process_options-daemon_mode :
    (ns : Nodes) (o : Options) → (process_options ns o).daemon_mode ≡ o.daemon_mode
unfolding process_options
process_options-daemon_mode end o = refl
process_options-daemon_mode (cons (node kind name props content children) rest) o =
    process_options-daemon_mode rest _
    ∙ ground (arith, process_debug-daemon_mode props o, process_cluster-daemon_mode props o)

-- The parts that no reader of a section writes.
abbrev pub SameStart : Configuration → Configuration → Type 0
SameStart c c' =
    (c'.options.daemon_mode ≡ c.options.daemon_mode)
    × (c'.home_dir ≡ c.home_dir)
    × (c'.config_path ≡ c.config_path)

-- One element, whatever its name and its groups.
element-SameStart :
    (a b : Bool) (groups : Read FilterConfig) (children : Nodes) (c c' : Configuration)
    → ((if a then (groups >>= λ filter. ok (record c { filter_config = filter })) else ok c)
        >>= λ d. ok (if b then record d { options = process_options children d.options } else d))
      ≡ ok c'
    → SameStart c c'
element-SameStart false false groups children c c' e = ground arith
element-SameStart false true groups children c c' e =
    ground (arith, process_options-daemon_mode children c.options)
element-SameStart true false (ok f) children c c' e = ground arith
element-SameStart true true (ok f) children c c' e =
    ground (arith, process_options-daemon_mode children c.options)
element-SameStart true b threw children c c' e = ground arith
element-SameStart true b crashed children c c' e = ground arith

process_section-SameStart :
    (n : Node) (c c' : Configuration) → process_section n c ≡ ok c' → SameStart c c'
unfolding process_section
process_section-SameStart (node element name props content children) c c' e =
    element-SameStart (is_named (text "application-groups") name) (is_named (text "options") name)
      (process_groups children c.filter_config) children c c' e
process_section-SameStart (node text_node name props content children) c c' e = ground arith
process_section-SameStart (node comment name props content children) c c' e = ground arith
process_section-SameStart (node other name props content children) c c' e = ground arith

process_sections-SameStart :
    (ns : Nodes) (c c' : Configuration) → process_sections ns c ≡ ok c' → SameStart c c'
unfolding process_sections
process_sections-SameStart end c c' e = ground arith
process_sections-SameStart (cons n rest) c c' e = elim (Read-cases (process_section n c)) [
  | inl (mid, first) ↦
      let (m, h, p) = process_section-SameStart n c mid first in
      let (m', h', p') =
        process_sections-SameStart rest mid c' (rw (first, process_sections, ◌>>=◌) at e) in
      (m' ∙ m, h' ∙ h, p' ∙ p)
  | inr (inl bad) ↦ cc (rw (bad, process_sections, ◌>>=◌) at e)
  | inr (inr bad) ↦ cc (rw (bad, process_sections, ◌>>=◌) at e)
]

-- Reading changes neither the daemon mode nor the two paths that were set before.
pub read_config-SameStart :
    (document : Option Node) (c c' : Configuration)
    → read_config document c ≡ ok c'
    → SameStart c c'
unfolding read_config
read_config-SameStart none c c' e = ground arith
read_config-SameStart (some (node kind name props content children)) c c' e =
    process_sections-SameStart children c c' e
