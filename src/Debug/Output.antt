-- ===== src/Debug/Output.antt =====
-- What a debug build writes: no colour once the codes are off, and a path that fits its buffer.
use keyfrog.Base.{
  if_of_true, sym, Option-cases, ℕ, ◌+◌, ◌≤◌, ◌≡◌, refl, ap, ◌∙◌, inl, inr, Bool, true, false, List,
  [], ◌∷◌, ◌++◌, Option, none, some, length, All, All-append, length-append, arith, if◌then◌else◌,
}
use mathlib.Core.List.{append-nil, append_assoc}
use keyfrog.Base.Text.{show_nat-Avoids, Text, text, Avoids, show_nat}
use keyfrog.TermCode.{TermCodes, null_output, escape}
use keyfrog.Debug.{Debug, Host, set_path, written, dbg, flag_nset}

-- A call of `__dbg`.
pub record Call : Type 0 where
  pub f : Text
  pub l : ℕ
  pub flag : ℕ
  pub message : Option Text

-- Calls one after the other, each with the system at its time.
unfoldable pub dbg_all : TermCodes → List (Host × Call) → Debug → Option Debug
unfolding dbg
dbg_all codes [] d = some d
dbg_all codes ((host, c) ∷ rest) d = elim (dbg codes host c.f c.l c.flag c.message d) [
  | none ↦ none
  | some d' ↦ dbg_all codes rest d'
]

-- The file and the message of a call have no colour of their own.
abbrev pub IsPlain : Call → Type 0
IsPlain c = Avoids escape c.f × ((m : Text) → c.message ≡ some m → Avoids escape m)

-- The buffer holds the path and its end mark.
abbrev pub Fits : Debug → Type 0
Fits d = (path : Text) → d.log_file_path ≡ some path → length path + 1 ≤ d.buffer

-- The directory of the user is known at each call.
abbrev pub HasHome : Host × Call → Type 0
HasHome (host, c) = (home : Text) × (host.home ≡ some home)

flag_part : (c : ℕ) (t : Text) (test : Bool) → Avoids c t → Avoids c (if test then t else [])
flag_part c t true h = h
flag_part c t false h = tt

both : (s t : Text) → Avoids escape s → Avoids escape t → Avoids escape (s ++ t)
both s t hs ht = All-append _ s t hs ht

written-Avoids :
    (codes : TermCodes) (f : Text) (l flag : ℕ) (m : Text)
    → Avoids escape f
    → Avoids escape m
    → Avoids escape (written (null_output codes) f l flag m)
unfolding written null_output
written-Avoids codes f l flag m hf hm =
    let digits = show_nat-Avoids escape l (λ n small e. omega (arith, small, e)) in
    let colon = both _ [] (both _ (text ":") (both f [] hf tt) ((λ e. ground arith), tt)) tt in
    let place = both _ (text " ") (both _ (show_nat l) colon digits) ((λ e. ground arith), tt) in
    both _ _ (both _ m (flag_part escape _ (flag_nset 1 flag) place) hm)
      (flag_part escape (text "\n") (flag_nset 2 flag) ((λ e. ground arith), tt))

set_path-Fits :
    (host : Host) (d : Debug) (home : Text)
    → host.home ≡ some home
    → Fits d
    → (d' : Debug) × (set_path host d ≡ some d')
      × Fits d'
      × (d'.log ≡ d.log)
      × (d'.std_err ≡ d.std_err)
unfolding set_path
set_path-Fits host d home is h = elim (Option-cases d.log_file_path) [
  | inl fresh ↦
      let path = home ++ text "/.keyfrog/keyfrog.log" in
      (
        record d { log_file_path = some path; buffer = length home + 64 },
        ground arith,
        λ p e. ground (arith, length-append home (text "/.keyfrog/keyfrog.log")),
        refl,
        refl,
      )
  | inr (path, set) ↦ (d, ground arith, h, refl, refl)
]

dbg-Plain :
    (codes : TermCodes) (host : Host) (c : Call) (d : Debug)
    → HasHome (host, c)
    → IsPlain c
    → Fits d
    → (d' : Debug) × (t : Text) × (dbg (null_output codes) host c.f c.l c.flag c.message d
        ≡ some d')
      × Fits d'
      × Avoids escape t
      × (d'.std_err ≡ d.std_err ++ t)
      × (d'.log ≡ (if host.opens then d.log ++ t else d.log))
unfolding dbg
dbg-Plain codes host c d (home, is) (hf, hm) fits =
    let (d1, set, fits1, log, err) = set_path-Fits host d home is fits in
    let same : d1.log ≡ (if host.opens then d.log ++ [] else d.log) =
      ground (arith, log, append-nil d.log) in
    elim (Option-cases c.message) [
      | inl silent ↦ (d1, [], ground arith, fits1, tt, err ∙ sym (append-nil d.std_err), same)
      | inr (m, given) ↦
          let t = written (null_output codes) c.f c.l c.flag m in
          (
            record d1 {
              log = if host.opens then d1.log ++ t else d1.log;
              std_err = d1.std_err ++ t;
            },
            t,
            ground arith,
            fits1,
            written-Avoids codes c.f c.l c.flag m hf (hm m given),
            ap (λ s. s ++ t) err,
            ap (λ s. if host.opens then s ++ t else s) log,
          )
    ]

-- With HOME set, and from a state in which the path of the log file fits its buffer, any calls of
-- the debug function after nullOutput, whose files and messages have no escape character, return;
-- the path with its end mark fits the buffer, the text added to the error stream has no escape
-- character, and the same text is added to the log file if it opens at each call.
pub dbg_all_lem :
    (codes : TermCodes) (calls : List (Host × Call)) (d : Debug)
    → All HasHome calls
    → All (λ (c : Host × Call). IsPlain c.1) calls
    → Fits d
    → (d' : Debug) × (t : Text) × (dbg_all (null_output codes) calls d ≡ some d')
      × Fits d'
      × Avoids escape t
      × (d'.std_err ≡ d.std_err ++ t)
      × (All (λ (c : Host × Call). c.0.opens ≡ true) calls → d'.log ≡ d.log ++ t)
unfolding dbg_all
dbg_all_lem codes [] d hs ps fits =
    (d, [], refl, fits, tt, sym (append-nil d.std_err), λ _. sym (append-nil d.log))
dbg_all_lem codes ((host, c) ∷ rest) d (h, hs) (p, ps) fits =
    let (d1, t1, first, fits1, p1, err1, log1) = dbg-Plain codes host c d h p fits in
    let (d2, t2, later, fits2, p2, err2, log2) = dbg_all_lem codes rest d1 hs ps fits1 in
    (
      d2,
      t1 ++ t2,
      rw (first, dbg_all) later,
      fits2,
      both t1 t2 p1 p2,
      err2 ∙ ap (λ s. s ++ t2) err1 ∙ append_assoc d.std_err t1 t2,
      λ (o, os). log2 os ∙ ap (λ s. s ++ t2) (log1 ∙ if_of_true _ o) ∙ append_assoc d.log t1 t2,
    )
