-- ===== src/Filter/First.antt =====
-- Which group the matchers choose.
use keyfrog.Base.{
  ℤ, ◌≡◌, refl, ◌⊎◌, ⊎_elim, ◌↔◌, inl, inr, Bool, true, false, List, [], ◌∷◌, ◌++◌, map, Bool-cases,
  At, here, there, subst, ap,
}
use keyfrog.Base.Text.{Text}
use keyfrog.Base.Set.{At-cases}
use keyfrog.Common.{tolower, string_eq_ci}
use keyfrog.Common.Caseless.{string_eq_ci_iff}
use keyfrog.Process.Tree.{ProcSet}
use keyfrog.Filter.{
  Group, FilterConfig, no_group, any_name, first_group, match_window_class, match_proc, names_one,
  match_term_proc,
}

-- Some element of a list has the property.
abbrev pub Some {ℓ} : {A : Type ℓ} → (A → Type 0) → List A → Type ℓ
Some {A} P xs = (x : A) × At x xs × P x

-- The two texts agree up to case.
abbrev pub SameLetters : Text → Text → Type 0
SameLetters s t = map tolower s ≡ map tolower t

-- The id is that of the first group that lists a name with the property, or -1 if none does.
abbrev pub Chosen : (Group → List Text) → (Text → Type 0) → List Group → ℤ → Type 0
Chosen names P groups gid =
    ((before : List Group) × (g : Group) × (after : List Group) × (groups ≡ before ++ g ∷ after)
      × (¬ Some (λ h. Some P (names h)) before)
      × Some P (names g)
      × (gid ≡ g.id))
    ⊎ (¬ Some (λ h. Some P (names h)) groups) × (gid ≡ no_group)

module _ (names : Group → List Text) (hit : Text → Bool) (P : Text → Type 0)
    (hit_iff : (t : Text) → (hit t ≡ true) ↔ P t) where
  any_name-Some : (ts : List Text) → any_name hit ts ≡ true → Some P ts
  unfolding any_name
  any_name-Some [] e = cc
  any_name-Some (t ∷ ts) e = elim (Bool-cases (hit t)) [
    | inl found ↦ (t, here, (hit_iff t).0 found)
    | inr other ↦ let (x, m, p) = any_name-Some ts (rw (other, any_name) at e) in (x, there m, p)
  ]

  any_name-not-Some : (ts : List Text) → any_name hit ts ≡ false → ¬ Some P ts
  unfolding any_name
  any_name-not-Some [] e (x, m, p) = elim m [ ]
  any_name-not-Some (t ∷ ts) e (x, m, p) = elim (Bool-cases (hit t)) [
    | inl found ↦ cc (rw (found, any_name) at e)
    | inr other ↦
        ⊎_elim (λ same. cc (other, (hit_iff t).1 (subst P same p)))
          (λ later. any_name-not-Some ts (rw (other, any_name) at e) (x, later, p)) (At-cases m)
  ]

  not-Some-cons :
      (g : Group) (gs : List Group)
      → ¬ Some P (names g)
      → ¬ Some (λ h. Some P (names h)) gs
      → ¬ Some (λ h. Some P (names h)) (g ∷ gs)
  not-Some-cons g gs here' later (h, m, p) =
      ⊎_elim (λ same. here' (subst (λ k. Some P (names k)) same p)) (λ n. later (h, n, p))
        (At-cases m)

  pub first_group-Chosen :
      (groups : List Group) → Chosen names P groups (first_group names hit groups)
  unfolding first_group
  first_group-Chosen [] = inr ((λ (h, m, p). elim m [ ]), refl)
  first_group-Chosen (g ∷ rest) = elim (Bool-cases (any_name hit (names g))) [
    | inl found ↦
        rw found
          (inl ([], g, rest, refl, (λ (h, m, p). elim m [ ]), any_name-Some (names g) found, refl))
    | inr other ↦
        let none_here = any_name-not-Some (names g) other in
        rw other (elim (first_group-Chosen rest) [
          | inl (before, h, after, eq, clear, some', id) ↦ inl (
            g ∷ before,
            h,
            after,
            ap (◌∷◌ g) eq,
            not-Some-cons g before none_here clear,
            some',
            id,
          )
          | inr (clear, id) ↦ inr (not-Some-cons g rest none_here clear, id)
        ])
  ]

-- matchWindowClass gives the id of the first group that lists the class name up to case, or -1 if
-- no group does.
pub match_window_class-Chosen :
    (groups : FilterConfig) (class_name : Text)
    → Chosen
        (λ g. g.window_classes)
        (λ class. SameLetters class class_name)
        groups
        (match_window_class groups class_name)
unfolding match_window_class
match_window_class-Chosen groups class_name =
    first_group-Chosen (λ g. g.window_classes) (λ class. string_eq_ci class class_name) _
      (λ class. string_eq_ci_iff class class_name) groups

-- matchProc gives the id of the first group that lists the process name up to case, or -1 if no
-- group does.
pub match_proc-Chosen :
    (groups : FilterConfig) (proc_name : Text)
    → Chosen
        (λ g. g.procs)
        (λ proc. SameLetters proc proc_name)
        groups
        (match_proc groups proc_name)
unfolding match_proc
match_proc-Chosen groups proc_name =
    first_group-Chosen (λ g. g.procs) (λ proc. string_eq_ci proc proc_name) _
      (λ proc. string_eq_ci_iff proc proc_name) groups

pub names_one_iff :
    (dprocs : ProcSet) (name : Text)
    → (names_one dprocs name ≡ true) ↔ Some (λ (e : ℤ × Text). SameLetters name e.1) dprocs
unfolding names_one
names_one_iff [] name = ((λ e. cc), λ (x, m, p). elim m [ ])
names_one_iff ((pid, proc) ∷ rest) name = elim (Bool-cases (string_eq_ci name proc)) [
  | inl found ↦
      rw found ((λ _. ((pid, proc), here, (string_eq_ci_iff name proc).0 found)), (λ _. refl))
  | inr other ↦
      let ih = names_one_iff rest name in
      rw other (
        (λ e. let (x, m, p) = ih.0 e in (x, there m, p)),
        λ (x, m, p).
            ⊎_elim
              (λ same. cc (
                other,
                (string_eq_ci_iff name proc).1
                    (subst (λ (e : ℤ × Text). SameLetters name e.1) same p),
              ))
              (λ later. ih.1 (x, later, p)) (At-cases m),
      )
]

-- matchTermProc gives the id of the first group that lists, up to case, the name of one of the
-- processes, or -1 if no group does.
pub match_term_proc-Chosen :
    (groups : FilterConfig) (dprocs : ProcSet)
    → Chosen
        (λ g. g.term_procs)
        (λ name. Some (λ (e : ℤ × Text). SameLetters name e.1) dprocs)
        groups
        (match_term_proc groups dprocs)
unfolding match_term_proc
match_term_proc-Chosen groups dprocs =
    first_group-Chosen (λ g. g.term_procs) (names_one dprocs) _ (names_one_iff dprocs) groups
