-- ===== src/LogManager/Reading.antt =====
-- `read_log` against its contract, the last lines of the log.
use frequent_cron.Base.{
  ℕ, zero, suc, ◌+◌, ◌-◌, ◌≤◌, ◌<◌, ◌≡◌, ◌≢◌, inl, inr, refl, sym, ap, ◌∙◌, String, some, List, [],
  ◌∷◌, ◌++◌, arith, ◌==◌, string_eq, nat_eq, if◌then◌else◌, Bool-cases, if_cases, leb,
}
use frequent_cron.Base.Lists.{length, length-append}
use frequent_cron.Base.Int.{ℤ, pos, negsuc, to_int32, pos_part, ltb_ℤ, to_int32-eq_of_IsInt32}
use mathlib.Core.List.{append-nil, append_assoc}
use frequent_cron.Paths.{log_file}
use frequent_cron.Process.{Bytes, newline}
use frequent_cron.LogManager.{
  Files, LogManager, cons_line, read_lines, tail_loop, drop_first, join_lines, tail_of, read_log,
  lacks_newline,
}

unfoldable pub drop : ℕ → List Bytes → List Bytes
drop zero lines = lines
drop (suc n) [] = []
drop (suc n) (line ∷ lines) = drop n lines

-- The last n lines, all of them if there are fewer.
unfoldable pub last_lines : ℕ → List Bytes → List Bytes
last_lines n lines = drop (length lines - n) lines

last_lines-cons :
    (n : ℕ) (line : Bytes) (lines : List Bytes)
    → n ≤ length lines
    → last_lines n (line ∷ lines) ≡ last_lines n lines
unfolding last_lines drop
last_lines-cons n line lines h =
    let one_more : suc (length lines) - n ≡ suc (length lines - n) = omega arith in
    ap (λ k. drop k (line ∷ lines)) one_more

last_lines-all : (n : ℕ) (lines : List Bytes) → length lines ≤ n → last_lines n lines ≡ lines
unfolding last_lines drop
last_lines-all n lines h =
    let nothing : length lines - n ≡ 0 = omega arith in ap (λ k. drop k lines) nothing

-- The loop's test is the comparison of the sizes themselves: neither of them wraps.
too_long :
    (num_lines : ℤ) (n : ℕ)
    → pos_part num_lines < 2147483647
    → n ≤ pos_part num_lines
    → ltb_ℤ num_lines (to_int32 (pos (n + 1))) ≡ leb (pos_part num_lines) n
too_long num_lines n small h =
    rw (to_int32-eq_of_IsInt32 (pos (n + 1)) (omega arith, omega arith))
      (cases_too_long num_lines h)
  where
    cases_too_long : (z : ℤ) → n ≤ pos_part z → ltb_ℤ z (pos (n + 1)) ≡ leb (pos_part z) n
    cases_too_long (pos m) below = ground arith
    cases_too_long (negsuc m) below = ground arith

drop_first-length :
    (lines : List Bytes) (line : Bytes) → length (drop_first (lines ++ (line ∷ []))) ≡ length lines
unfolding drop_first
drop_first-length [] line = refl
drop_first-length (l ∷ lines) line = length-append lines (line ∷ []) ∙ omega arith

-- Dropping the first line changes nothing where the last n lines are wanted and n others follow it.
last_lines-drop_first :
    (lines rest : List Bytes) (line : Bytes)
    → last_lines (length lines) (drop_first (lines ++ (line ∷ [])) ++ rest)
      ≡ last_lines (length lines) (lines ++ (line ∷ rest))
unfolding drop_first
last_lines-drop_first [] rest line = sym (last_lines-cons 0 line rest (omega arith))
last_lines-drop_first (l ∷ lines) rest line =
    ap (last_lines (suc (length lines))) (append_assoc lines (line ∷ []) rest)
    ∙ sym (last_lines-cons (suc (length lines)) l (lines ++ (line ∷ rest)) long_enough)
  where
    long_enough : suc (length lines) ≤ length (lines ++ (line ∷ rest))
    long_enough = omega (arith, length-append lines (line ∷ rest))

-- The loop keeps the last lines of the deque and the lines still to be read.
tail_loop-last_lines :
    (num_lines : ℤ) (rest lines : List Bytes)
    → pos_part num_lines < 2147483647
    → length lines ≤ pos_part num_lines
    → tail_loop num_lines rest lines ≡ last_lines (pos_part num_lines) (lines ++ rest)
unfolding tail_loop
tail_loop-last_lines num_lines [] lines small h =
    sym (ap (last_lines (pos_part num_lines)) (append-nil lines) ∙ last_lines-all _ lines h)
tail_loop-last_lines num_lines (line ∷ rest) lines small h =
    let one_more : length (lines ++ (line ∷ [])) ≡ length lines + 1 =
      length-append lines (line ∷ []) in
    let test =
      ap (λ k. ltb_ℤ num_lines (to_int32 (pos k))) one_more
      ∙ too_long num_lines (length lines) small h in
    elim (Bool-cases (leb (pos_part num_lines) (length lines))) [
      | inl full ↦
          let exactly : pos_part num_lines ≡ length lines = ground arith in
          rw (test, full)
            (tail_loop-last_lines num_lines rest (drop_first (lines ++ (line ∷ []))) small
                (omega (arith, drop_first-length lines line))
              ∙ rw exactly (last_lines-drop_first lines rest line))
      | inr room ↦
          rw (test, room)
            (tail_loop-last_lines num_lines rest (lines ++ (line ∷ [])) small (ground arith)
              ∙ ap (last_lines (pos_part num_lines)) (append_assoc lines (line ∷ []) rest))
    ]

-- Asked for at most 2147483646 lines of a log that is there, `read_log` answers with the last lines
-- of the log, all of them if it has fewer, and with nothing if the number is negative.
pub read_log-last_lines :
    (lm : LogManager) (name : String) (num_lines : ℤ) (fs : Files) (content : Bytes)
    → pos_part num_lines < 2147483647
    → fs (log_file lm.log_dir name) ≡ some content
    → read_log lm name num_lines fs
      ≡ join_lines (last_lines (pos_part num_lines) (read_lines content))
unfolding read_log tail_of
read_log-last_lines lm name num_lines fs content small there =
    ap (tail_of num_lines) there
    ∙ ap join_lines (tail_loop-last_lines num_lines (read_lines content) [] small (omega arith))

join_lines-cons_line :
    (c : ℕ) (lines : List Bytes)
    → lines ≢ []
    → join_lines (cons_line c lines) ≡ c ∷ join_lines lines
unfolding join_lines cons_line
join_lines-cons_line c [] h = absurd (h refl)
join_lines-cons_line c (line ∷ more) h =
    if_cases (λ lines. join_lines lines ≡ c ∷ join_lines (line ∷ more)) (c == newline)
      ([] ∷ line ∷ more) ((c ∷ line) ∷ more)
      (λ at_end. let same : newline ≡ c = ground arith in ap (◌∷ join_lines (line ∷ more)) same)
      (λ inside. refl)

cons_line-nonempty : (c : ℕ) (lines : List Bytes) → cons_line c lines ≢ []
unfolding cons_line
cons_line-nonempty c [] h = ground arith
cons_line-nonempty c (line ∷ more) h = ground arith

-- The lines of a text, each with a newline after it, are the text again, with a newline added where
-- it did not end in one.
pub join_lines-read_lines :
    (s : Bytes) → join_lines (read_lines s) ≡ s ++ (if lacks_newline s then newline ∷ [] else [])
unfolding read_lines join_lines lacks_newline cons_line
join_lines-read_lines [] = refl
join_lines-read_lines (c ∷ []) = elim (Bool-cases (c == newline)) [
  | inl at_end ↦ let same : newline ≡ c = ground arith in simp at_end (ap (◌∷ []) same)
  | inr inside ↦ simp inside refl
]
join_lines-read_lines (c ∷ d ∷ s) =
    join_lines-cons_line c (cons_line d (read_lines s)) (cons_line-nonempty d (read_lines s))
    ∙ ap (c ∷◌) (join_lines-read_lines (d ∷ s))
