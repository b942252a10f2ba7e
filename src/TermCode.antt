-- ===== src/TermCode.antt =====
-- src/TermCode.h and src/TermCode.cpp: the colours of a terminal.
use keyfrog.Base.{ℕ, [], ◌∷◌, ◌++◌}
use keyfrog.Base.Text.{Text, text}

-- `enum Codes`
pub data Codes : Type 0 where
  red bold_red green bold_green blue bold_blue yellow bold_yellow purple bold_purple : Codes
  cyan bold_cyan reset null : Codes

-- The character `\e`
abbrev pub escape : ℕ
escape = 27

-- `m_code` of the class `TermCode`
pub record TermCode : Type 0 where
  pub m_code : Text

-- `TermCode(Codes)`, with the macros for its texts
unfoldable pub code_of : Codes → Text
code_of red = escape ∷ text "[0;31m"
code_of bold_red = escape ∷ text "[1;31m"
code_of green = escape ∷ text "[0;32m"
code_of bold_green = escape ∷ text "[1;32m"
code_of yellow = escape ∷ text "[0;33m"
code_of bold_yellow = escape ∷ text "[1;33m"
code_of purple = escape ∷ text "[0;35m"
code_of bold_purple = escape ∷ text "[1;35m"
code_of blue = escape ∷ text "[0;34m"
code_of bold_blue = escape ∷ text "[1;34m"
code_of cyan = escape ∷ text "[0;36m"
code_of bold_cyan = escape ∷ text "[1;36m"
code_of reset = escape ∷ text "[0;0m"
code_of null = []

abbrev pub new_term_code : Codes → TermCode
new_term_code code = record { m_code = code_of code }

-- `ccode`, and `operator <<`, which writes the code to a stream.
abbrev pub ccode : TermCode → Text
ccode term_code = term_code.m_code

abbrev pub write_code : Text → TermCode → Text
write_code os term_code = os ++ term_code.m_code

-- The variables of the namespace `TermCodes`: the objects, and the texts of the same colours.
pub record TermCodes : Type 0 where
  pub o_red : TermCode
  pub o_bold_red : TermCode
  pub o_green : TermCode
  pub o_bold_green : TermCode
  pub o_blue : TermCode
  pub o_bold_blue : TermCode
  pub o_yellow : TermCode
  pub o_bold_yellow : TermCode
  pub o_cyan : TermCode
  pub o_bold_cyan : TermCode
  pub o_reset : TermCode
  pub cred : Text
  pub cbold_red : Text
  pub cgreen : Text
  pub cbold_green : Text
  pub cblue : Text
  pub cbold_blue : Text
  pub cyellow : Text
  pub cbold_yellow : Text
  pub ccyan : Text
  pub cbold_cyan : Text
  pub creset : Text

unfoldable pub term_codes : TermCodes
unfolding code_of
term_codes = record {
  o_red = new_term_code red;
  o_bold_red = new_term_code bold_red;
  o_green = new_term_code green;
  o_bold_green = new_term_code bold_green;
  o_blue = new_term_code blue;
  o_bold_blue = new_term_code bold_blue;
  o_yellow = new_term_code yellow;
  o_bold_yellow = new_term_code bold_yellow;
  o_cyan = new_term_code cyan;
  o_bold_cyan = new_term_code bold_cyan;
  o_reset = new_term_code reset;
  cred = code_of red;
  cbold_red = code_of bold_red;
  cgreen = code_of green;
  cbold_green = code_of bold_green;
  cblue = code_of blue;
  cbold_blue = code_of bold_blue;
  cyellow = code_of yellow;
  cbold_yellow = code_of bold_yellow;
  ccyan = code_of cyan;
  cbold_cyan = code_of bold_cyan;
  creset = code_of reset;
}

-- `nullOutput`
unfoldable pub null_output : TermCodes → TermCodes
unfolding code_of
null_output codes =
    let none = new_term_code null in
    record {
      o_red = none;
      o_bold_red = none;
      o_green = none;
      o_bold_green = none;
      o_blue = none;
      o_bold_blue = none;
      o_yellow = none;
      o_bold_yellow = none;
      o_cyan = none;
      o_bold_cyan = none;
      o_reset = none;
      cred = [];
      cbold_red = [];
      cgreen = [];
      cbold_green = [];
      cblue = [];
      cbold_blue = [];
      cyellow = [];
      cbold_yellow = [];
      ccyan = [];
      cbold_cyan = [];
      creset = [];
    }
