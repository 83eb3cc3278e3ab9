-- ===== src/LogManager.antt =====
-- src/log_manager.cc and include/log_manager.h: one log per service, rotated by size.
--
-- The log directory is a function from paths to what the files there hold; nobody else writes to it
-- while an operation runs. `opens` says whether the log can be opened for appending.
pub mod Rotation
pub mod Writing
pub mod Size
pub mod Reading
use frequent_cron.Base.{
  ℕ, zero, suc, ◌+◌, ◌-◌, String, Bool, true, false, not, Option, none, some, List, [], ◌∷◌, ◌++◌,
  ◌==◌, string_eq, nat_eq, if◌then◌else◌, ltb,
}
use frequent_cron.Base.Lists.{length}
use frequent_cron.Base.Int.{ℤ, pos, to_int32, pos_part, ltb_ℤ}
use frequent_cron.Paths.{log_file, rotated_file}
use frequent_cron.Process.{Bytes, newline}

abbrev pub Files : Type 0
Files = String → Option Bytes

unfoldable pub exists : String → Files → Bool
exists p fs = elim (fs p) [ none ↦ false | some content ↦ true ]

-- std::filesystem::file_size
unfoldable pub file_size : String → Files → ℕ
file_size p fs = elim (fs p) [ none ↦ 0 | some content ↦ length content ]

unfoldable pub put : String → Bytes → Files → Files
put p content fs q = if p == q then some content else fs q

-- std::filesystem::rename, which replaces what the new name had
unfoldable pub rename : String → String → Files → Files
rename src dst fs q = if dst == q then fs src else if src == q then none else fs q

pub record LogManager : Type 0 where
  pub log_dir : String
  pub max_file_size : ℕ
  pub max_files : ℤ

-- output.back() != '\n'
unfoldable pub lacks_newline : Bytes → Bool
lacks_newline [] = false
lacks_newline (c ∷ []) = not (c == newline)
lacks_newline (c ∷ c' ∷ s) = lacks_newline (c' ∷ s)

-- What one call of `write` appends; `time` is the formatted local time.
unfoldable pub entry : Bytes → Bytes → Bytes
entry time output =
    (b'[' ∷ (time ++ (b']' ∷ b' ' ∷ output))) ++ (if lacks_newline output then newline ∷ [] else [])

module _ (lm : LogManager) where
  -- One round of the rotation loop.
  unfoldable pub shift : String → ℕ → Files → Files
  shift name i fs =
      let src = rotated_file lm.log_dir name (pos i) in
      let dst = rotated_file lm.log_dir name (pos (i + 1)) in
      if exists src fs then rename src dst fs else fs

  -- for( int i = n; i >= 1; i-- )
  unfoldable pub shift_all : String → ℕ → Files → Files
  shift_all name zero fs = fs
  shift_all name (suc n) fs = shift_all name n (shift name (suc n) fs)

  -- The rounds of the loop, which starts at max_files - 1.
  abbrev pub rounds : ℕ
  rounds = pos_part lm.max_files - 1

  unfoldable pub rotate : String → Files → Files
  rotate name fs =
      rename (log_file lm.log_dir name) (rotated_file lm.log_dir name (pos 1))
        (shift_all name rounds fs)

  unfoldable pub rotate_if_needed : String → Files → Files
  rotate_if_needed name fs =
      let path = log_file lm.log_dir name in
      if exists path fs
      then if ltb (file_size path fs) lm.max_file_size then fs else rotate name fs
      else fs

  unfoldable pub append_entry : String → Bytes → Files → Files
  append_entry path text fs =
      put path (elim (fs path) [ none ↦ text | some content ↦ content ++ text ]) fs

  unfoldable pub write : Bool → Bytes → String → Bytes → Files → Files
  write opens time name [] fs = fs
  write opens time name (c ∷ s) fs =
      let fs' = rotate_if_needed name fs in
      if opens then append_entry (log_file lm.log_dir name) (entry time (c ∷ s)) fs' else fs'

-- A character before the lines that follow it.
unfoldable pub cons_line : ℕ → List Bytes → List Bytes
cons_line c [] = if c == newline then [] ∷ [] else (c ∷ []) ∷ []
cons_line c (line ∷ more) = if c == newline then [] ∷ line ∷ more else (c ∷ line) ∷ more

-- The lines that std::getline reads: a text that ends in a newline has no line after it.
unfoldable pub read_lines : Bytes → List Bytes
read_lines [] = []
read_lines (c ∷ s) = cons_line c (read_lines s)

unfoldable pub drop_first : List Bytes → List Bytes
drop_first [] = []
drop_first (line ∷ lines) = lines

-- The deque of `read_log` after the remaining lines are read.
unfoldable pub tail_loop : ℤ → List Bytes → List Bytes → List Bytes
tail_loop num_lines [] lines = lines
tail_loop num_lines (line ∷ rest) lines =
    let longer = lines ++ (line ∷ []) in
    let kept =
      if ltb_ℤ num_lines (to_int32 (pos (length longer))) then drop_first longer else longer in
    tail_loop num_lines rest kept

unfoldable pub join_lines : List Bytes → Bytes
join_lines [] = []
join_lines (line ∷ lines) = line ++ (newline ∷ join_lines lines)

unfoldable pub tail_of : ℤ → Option Bytes → Bytes
tail_of num_lines none = []
tail_of num_lines (some content) = join_lines (tail_loop num_lines (read_lines content) [])

unfoldable pub read_log : LogManager → String → ℤ → Files → Bytes
read_log lm name num_lines fs = tail_of num_lines (fs (log_file lm.log_dir name))
