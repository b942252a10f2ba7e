-- ===== src/Debug.antt =====
-- src/Debug.h and src/Debug.cpp: the output of a debug build.
pub mod Output
use keyfrog.Base.{
  eq_ℤ, ℕ, ℤ, suc, ◌+◌, ◌/◌, ◌%◌, Bool, true, false, not, List, [], ◌∷◌, ◌++◌, Option, none, some,
  length, if◌then◌else◌, ◌==◌,
}
use keyfrog.Base.Text.{Text, text, show_nat}
use keyfrog.TermCode.{TermCodes}

-- `enum Flags`
abbrev pub quiet : ℕ
quiet = 1

abbrev pub nonewline : ℕ
nonewline = 2

abbrev pub info : ℕ
info = 4

-- `DEBUG_FLAG_NSET`, for one of the flags: its bit is not set.
abbrev pub flag_nset : ℕ → ℕ → Bool
flag_nset flag x = (x / flag) % 2 == 0

-- `logFilePath`, the size of its buffer, the log file, and the streams `stderr` and `stdout`.
pub record Debug : Type 0 where
  pub log_file_path : Option Text
  pub buffer : ℕ
  pub log : Text
  pub std_err : Text
  pub std_out : Text

-- `HOME`, and whether the log file can be opened.
pub record Host : Type 0 where
  pub home : Option Text
  pub opens : Bool

-- The path of the log file, at the first call. `none` is `strlen` of no text. `new` never gives a
-- null pointer.
unfoldable pub set_path : Host → Debug → Option Debug
set_path host d = elim d.log_file_path [
  | some _ ↦ some d
  | none ↦ elim host.home [
    | none ↦ none
    | some home ↦ some (record d {
      log_file_path = some (home ++ text "/.keyfrog/keyfrog.log");
      buffer = length home + 64;
    })
  ]
]

-- What one call writes to a stream.
unfoldable pub written : TermCodes → (f : Text) (l flag : ℕ) (message : Text) → Text
written codes f l flag message =
    let place = f ++ codes.ccyan ++ text ":" ++ codes.creset ++ show_nat l ++ text " " in
    (if flag_nset quiet flag then place else [])
    ++ message
    ++ (if flag_nset nonewline flag then text "\n" else [])

-- `__dbg`; `message` is what `vfprintf` makes of the format and its arguments, if there is a format.
-- `useLogFile` and `useStdErr` are set by nothing.
unfoldable pub dbg :
    TermCodes → Host → (f : Text) (l flag : ℕ) (message : Option Text) → Debug → Option Debug
unfolding set_path written
dbg codes host f l flag message d = elim (set_path host d) [
  | none ↦ none
  | some d' ↦ elim message [
    | none ↦ some d'
    | some m ↦
        let line = written codes f l flag m in
        some (record d' {
          log = if host.opens then d'.log ++ line else d'.log;
          std_err = d'.std_err ++ line;
        })
  ]
]

abbrev pub yes_no : ℤ → Text
yes_no n = if eq_ℤ n (ℤ.pos 1) then text "Yes" else text "No"

-- The places that `__err` is told of.
pub record Place : Type 0 where
  pub file : Text
  pub function : Text
  pub line : ℕ
  pub date : Text
  pub version : Text
  pub opt : ℤ
  pub opt_size : ℤ

-- `__err`
unfoldable pub err : TermCodes → (flags : ℕ) → Place → (txt : Option Text) → Debug → Debug
err codes flags place txt d =
    let error = flag_nset info flags in
    let my_color = if error then codes.cbold_red else codes.cbold_cyan in
    let stars = my_color ++ text "**" ++ codes.creset in
    let title = if error then text " ERROR! " else text " INFORMATION " in
    let head =
      stars
      ++ title
      ++ stars
      ++ text "\n"
      ++ text "File:                \t "
      ++ place.file
      ++ text "\n"
      ++ text "Function             \t "
      ++ place.function
      ++ text "\n"
      ++ text "Line:                \t "
      ++ show_nat place.line
      ++ text "\n"
      ++ text "Compilation date:    \t "
      ++ place.date
      ++ text "\n"
      ++ text "Compiler:            \t "
      ++ place.version
      ++ text "\n"
      ++ text "Optimization:        \t "
      ++ yes_no place.opt
      ++ text "\n"
      ++ text "Size optimization:   \t "
      ++ yes_no place.opt_size
      ++ text "\n" in
    let tail : Text = (elim txt [
      | none ↦ []
      | some m ↦
          stars
          ++ text " Description: "
          ++ stars
          ++ text "\n"
          ++ m
          ++ text "\n"
          ++ stars
          ++ stars
          ++ text "\n"
    ]) in
    record d { std_out = d.std_out ++ head ++ tail }
