-- ===== src/Tests/Logs.antt =====
-- A small log directory.
use frequent_cron.Base.{
  ℕ, ◌+◌, ◌≤◌, ◌≡◌, refl, true, false, none, some, List, [], ◌∷◌, ◌++◌, arith, string_eq, nat_eq,
}
use frequent_cron.Base.Lists.{length}
use frequent_cron.Base.Int.{pos}
use frequent_cron.Process.{newline}
use frequent_cron.LogManager.{
  Files, LogManager, file_size, rotate, entry, write, read_lines, join_lines, read_log,
}
use frequent_cron.LogManager.Rotation.{rotated, current, generation, rotate-generation}
use frequent_cron.LogManager.Writing.{Writing, history, write_all, added_all, write_all-history}
use frequent_cron.LogManager.Size.{write-size}
use frequent_cron.LogManager.Reading.{last_lines, read_log-last_lines}

abbrev manager : LogManager
manager = record { log_dir = "/logs"; max_file_size = 8; max_files = pos 2 }

abbrev lines : List ℕ
lines = b'a' ∷ newline ∷ b'b' ∷ newline ∷ b'c' ∷ newline ∷ b'd' ∷ newline ∷ []

-- Every file holds the same four lines.
abbrev full : Files
full = λ p. some lines

abbrev output : List ℕ
output = b'x' ∷ []

abbrev writings : List Writing
writings =
    record { opens = true; time = []; output = output }
    ∷ record { opens = false; time = []; output = output }
    ∷ record { opens = true; time = []; output = [] }
    ∷ []

rotate-generation_example :
    (rotate manager "web" full (current manager "web") ≡ none)
    × (rotate manager "web" full (rotated manager "web" (1 + 1)) ≡ generation manager "web" full 1)
rotate-generation_example = rotate-generation manager "web" full 1

write_all-history_example :
    (gone : List ℕ) × (gone ++ history manager "web" (write_all manager "web" writings full)
      ≡ history manager "web" full ++ added_all manager "web" writings)
write_all-history_example = write_all-history manager "web" writings full

write-size_example :
    file_size (current manager "web") (write manager true [] "web" output full)
    ≤ 7 + length (entry [] output)
write-size_example = write-size manager "web" [] b'x' [] full

read_log-last_lines_example :
    read_log manager "web" (pos 2) full ≡ join_lines (last_lines 2 (read_lines lines))
read_log-last_lines_example =
    read_log-last_lines manager "web" (pos 2) full lines (omega arith) refl
