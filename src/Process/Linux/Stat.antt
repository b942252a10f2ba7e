-- ===== src/Process/Linux/Stat.antt =====
-- What is read of /proc/pid/stat, "pid (name) state ppid ...".
use keyfrog.Base.{
  ℕ, ℤ, pos, ◌-◌, ◌+◌, ◌≡◌, refl, ap, ◌∙◌, true, false, [], ◌∷◌, ◌++◌, none, some, eq_ℤ, length,
  length-append, take, All, All-append, arith,
}
use keyfrog.Base.Text.{Text}
use keyfrog.Base.Decimal.{is_space}
use keyfrog.Process.{Properties}
use keyfrog.Process.Linux.{
  LexicalCast, ProcFs, Known, skip_spaces, split_word, read_word, inner, parent_of, try_properties,
  try_name, try_parent, set_process_properties,
}

-- A text with no white space.
abbrev pub IsWord : Text → Type 0
IsWord = All (λ c. is_space c ≡ false)

split_word_lem : (w rest : Text) → IsWord w → split_word (w ++ (32 ∷ rest)) ≡ (w, 32 ∷ rest)
unfolding split_word
split_word_lem [] rest h = refl
split_word_lem (c ∷ w) rest h = ground (arith, split_word_lem w rest h.1)

read_word_first :
    (trm : Text) (c : ℕ) (w rest : Text)
    → IsWord (c ∷ w)
    → read_word trm ((c ∷ w) ++ (32 ∷ rest)) ≡ (c ∷ w, 32 ∷ rest)
unfolding read_word skip_spaces
read_word_first trm c w rest h = ground (arith, split_word_lem (c ∷ w) rest h)

-- The next word behind one space.
read_word_next :
    (trm : Text) (c : ℕ) (w rest : Text)
    → IsWord (c ∷ w)
    → read_word trm (32 ∷ ((c ∷ w) ++ (32 ∷ rest))) ≡ (c ∷ w, 32 ∷ rest)
unfolding read_word skip_spaces
read_word_next trm c w rest h = ground (arith, split_word_lem (c ∷ w) rest h)

take_init : (s : Text) (c : ℕ) → take (length (s ++ (c ∷ [])) - 1) (s ++ (c ∷ [])) ≡ s
take_init s c = rw (length-append s (c ∷ [])) (go s (c ∷ []) (length s + 1 - 1) (omega arith))
  where
    go : (s t : Text) (n : ℕ) → n ≡ length s → take n (s ++ t) ≡ s
    go [] t n h = rw h
    go (x ∷ s) t n h = rw h (ap (◌∷◌ x) (go s t (length s) refl))

inner_brackets : (name : Text) → inner (40 ∷ (name ++ (41 ∷ []))) ≡ some name
unfolding inner
inner_brackets name = ap some (take_init name 41)

inner_cut : (a : Text) → inner (40 ∷ a) ≡ some (take (length a - 1) a)
unfolding inner
inner_cut a = refl

-- A name of two parts in its brackets, and what follows it.
regroup :
    (a b rest : Text)
    → ((a ++ (32 ∷ b)) ++ (41 ∷ [])) ++ rest ≡ a ++ (32 ∷ ((b ++ (41 ∷ [])) ++ rest))
regroup [] b rest = refl
regroup (c ∷ a) b rest = ap (◌∷◌ c) (regroup a b rest)

-- A line of the file system: the pid, the name in brackets, the state, the parent, and more.
abbrev pub stat_line : (pid name state ppid rest : Text) → Text
stat_line pid name state ppid rest =
    pid ++ (32 ∷ ((40 ∷ (name ++ (41 ∷ []))) ++ (32 ∷ (state ++ (32 ∷ (ppid ++ (32 ∷ rest)))))))

abbrev pub unknown : Known
unknown = record { ppid = none; name = none }

module _ (cast : LexicalCast) (fs : ProcFs) (pid : ℤ) (props : Properties) where
  try_properties_words :
      (content w w' r r' : Text)
      → fs.stat (cast.to_text pid) ≡ some content
      → read_word [] content ≡ (w, r)
      → read_word w r ≡ (w', r')
      → try_properties cast fs pid unknown props
        ≡ try_name cast fs unknown w' r' (record props { pid = pid; pid_str = cast.to_text pid })
  unfolding try_properties
  try_properties_words content w w' r r' line e e' = rw (line, try_properties, e, e')

  try_name_words :
      (trm stream name state rest : Text) (q : Properties)
      → inner trm ≡ some name
      → read_word trm stream ≡ (state, rest)
      → try_name cast fs unknown trm stream q
        ≡ try_parent cast fs unknown state rest (record q { name = name; name_known = true })
  unfolding try_name
  try_name_words trm stream name state rest q n e = rw (n, try_name, e)

  try_parent_word :
      (trm stream word rest : Text) (q : Properties)
      → read_word trm stream ≡ (word, rest)
      → try_parent cast fs unknown trm stream q ≡ parent_of (cast.to_int word) word q
  unfolding try_parent
  try_parent_word trm stream word rest q e = rw (e, try_parent)

  -- From a line of /proc/pid/stat whose pid, state and parent are words, whose name has no white
  -- space and whose parent casts to an int, setProcessProperties answers true with that name and
  -- that parent.
  pub set_process_properties-stat_line :
      (d s p : ℕ) (ds name ss ps rest : Text) (ppid : ℤ)
      → IsWord (d ∷ ds)
      → IsWord name
      → IsWord (s ∷ ss)
      → IsWord (p ∷ ps)
      → fs.stat (cast.to_text pid) ≡ some (stat_line (d ∷ ds) name (s ∷ ss) (p ∷ ps) rest)
      → cast.to_int (p ∷ ps) ≡ some ppid
      → set_process_properties cast fs pid unknown props ≡ (
        true,
        record {
          pid = pid;
          pid_str = cast.to_text pid;
          name_known = true;
          name = name;
          ppid_known = true;
          ppid = ppid;
          ppid_str = p ∷ ps;
        },
      )
  unfolding set_process_properties parent_of
  set_process_properties-stat_line d s p ds name ss ps rest ppid hd hn hs hp line is =
      let tail : Text = (p ∷ ps) ++ (32 ∷ rest) in
      let later : Text = (s ∷ ss) ++ (32 ∷ tail) in
      let tried =
        try_properties_words _ _ _ _ _ line
          (read_word_first [] d ds ((40 ∷ (name ++ (41 ∷ []))) ++ (32 ∷ later)) hd)
          (read_word_next (d ∷ ds) 40 (name ++ (41 ∷ [])) later
            (refl, All-append _ name (41 ∷ []) hn (refl, tt)))
        ∙ try_name_words _ _ name _ _ _ (inner_brackets name)
            (read_word_next (40 ∷ (name ++ (41 ∷ []))) s ss tail hs)
        ∙ try_parent_word _ _ _ _ _ (read_word_next (s ∷ ss) p ps rest hp) in
      rw (tried, set_process_properties, is)

  -- From a line whose name has one space, with words on both sides of it, and whose state does not
  -- cast to an int, setProcessProperties for a pid other than 0 answers false, and leaves the first
  -- part of the name without its last letter and no parent.
  pub set_process_properties-space_in_name :
      (d s x : ℕ) (ds a b ss ppid rest : Text)
      → IsWord (d ∷ ds)
      → IsWord a
      → IsWord (x ∷ b)
      → IsWord (s ∷ ss)
      → fs.stat (cast.to_text pid)
        ≡ some (stat_line (d ∷ ds) (a ++ (32 ∷ x ∷ b)) (s ∷ ss) ppid rest)
      → cast.to_int (s ∷ ss) ≡ none
      → eq_ℤ (pos 0) pid ≡ false
      → set_process_properties cast fs pid unknown props ≡ (
        false,
        record props {
          pid = pid;
          pid_str = cast.to_text pid;
          name_known = true;
          name = take (length a - 1) a;
        },
      )
  unfolding set_process_properties parent_of
  set_process_properties-space_in_name d s x ds a b ss ppid rest hd ha hx hs line no_int proper =
      let tail : Text = ppid ++ (32 ∷ rest) in
      let later : Text = (x ∷ (b ++ (41 ∷ []))) ++ (32 ∷ ((s ∷ ss) ++ (32 ∷ tail))) in
      let tried =
        try_properties_words _ _ _ _ _
          (line
            ∙ ap some (
                ap (λ u. (d ∷ ds) ++ (32 ∷ 40 ∷ u))
                  (regroup a (x ∷ b) (32 ∷ ((s ∷ ss) ++ (32 ∷ tail))))))
          (read_word_first [] d ds ((40 ∷ a) ++ (32 ∷ later)) hd)
          (read_word_next (d ∷ ds) 40 a later (refl, ha))
        ∙ try_name_words _ _ _ _ _ _ (inner_cut a) (
            read_word_next (40 ∷ a) x (b ++ (41 ∷ [])) ((s ∷ ss) ++ (32 ∷ tail))
              (hx.0, All-append _ b (41 ∷ []) hx.1 (refl, tt)))
        ∙ try_parent_word _ _ _ _ _ (read_word_next (x ∷ (b ++ (41 ∷ []))) s ss tail hs) in
      rw (tried, set_process_properties, no_int, proper)
