-- ===== src/LogManager/Size.antt =====
-- How large a log can become.
use frequent_cron.Base.{
  ℕ, ◌+◌, ◌-◌, ◌≤◌, ◌≡◌, refl, ap, String, true, none, ◌∷◌, arith, if◌then◌else◌, if_cases, ltb,
}
use frequent_cron.Base.Lists.{length, length-append}
use frequent_cron.Process.{Bytes}
use frequent_cron.LogManager.{
  Files, exists, file_size, LogManager, rotate, rotate_if_needed, entry, append_entry, write,
}
use frequent_cron.LogManager.Rotation.{current, none_of_exists}
use frequent_cron.LogManager.Writing.{text, emptied, text-append_entry}

file_size-text : (p : String) (fs : Files) → file_size p fs ≡ length (text (fs p))
unfolding file_size text
file_size-text p fs = ground arith

rotated_size :
    (lm : LogManager) (name : String) (fs : Files)
    → length (text (rotate_if_needed lm name fs (current lm name))) ≤ lm.max_file_size - 1
unfolding rotate_if_needed text
rotated_size lm name fs =
    let Small : Files → Type 0 =
      λ fs'. length (text (fs' (current lm name))) ≤ lm.max_file_size - 1 in
    let small = ltb (file_size (current lm name) fs) lm.max_file_size in
    if_cases Small (exists (current lm name) fs) (if small then fs else rotate lm name fs) fs
      (λ there.
        if_cases Small small fs (rotate lm name fs)
          (λ below. ground (arith, file_size-text (current lm name) fs))
          (λ full. omega (arith, ap length (emptied lm name fs))))
      (λ missing.
        omega
          (arith, ap (λ o. length (text o)) (none_of_exists (current lm name) fs missing), nothing))
  where
    nothing : length (text none) ≡ 0
    nothing = refl

-- After a write the log is smaller than max_file_size and the new entry together, or as long as the
-- entry where max_file_size is 0.
pub write-size :
    (lm : LogManager) (name : String) (time : Bytes) (c : ℕ) (s : Bytes) (fs : Files)
    → file_size (current lm name) (write lm true time name (c ∷ s) fs)
      ≤ (lm.max_file_size - 1) + length (entry time (c ∷ s))
unfolding write
write-size lm name time c s fs =
    let before = rotate_if_needed lm name fs in
    let e = entry time (c ∷ s) in
    omega (
      arith,
      file_size-text (current lm name) (append_entry lm (current lm name) e before),
      ap length (text-append_entry lm name e before),
      length-append (text (before (current lm name))) e,
      rotated_size lm name fs,
    )
