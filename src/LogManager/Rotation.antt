-- ===== src/LogManager/Rotation.antt =====
-- What a rotation does to the files of a log.
use frequent_cron.Base.{
  ℕ, zero, suc, ◌+◌, ◌≤◌, ◌<◌, ◌≡◌, ◌≢◌, refl, sym, ◌∙◌, String, true, false, Option, none, some,
  arith, ◌==◌, string_eq, nat_eq, if◌then◌else◌, ltb, ℕ_discrete,
}
use frequent_cron.Base.Int.{pos}
use frequent_cron.Paths.{log_file, rotated_file}
use frequent_cron.Paths.Distinct.{rotated_file-injective, log_file≢rotated_file}
use frequent_cron.Process.{Bytes}
use frequent_cron.LogManager.{Files, exists, rename, LogManager, shift, shift_all, rounds, rotate}

exists-of_some :
    (p : String) (fs : Files) {content : Bytes} → fs p ≡ some content → exists p fs ≡ true
unfolding exists
exists-of_some p fs h = ground arith

pub none_of_exists : (p : String) (fs : Files) → exists p fs ≡ false → fs p ≡ none
unfolding exists
none_of_exists p fs h = ground arith

module _ (lm : LogManager) (name : String) where
  -- The rotated file with this number.
  abbrev pub rotated : ℕ → String
  rotated k = rotated_file lm.log_dir name (pos k)

  abbrev pub current : String
  current = log_file lm.log_dir name

  pub current≢rotated : (k : ℕ) → rotated k ≢ current
  current≢rotated k h = log_file≢rotated_file lm.log_dir name (pos k) (sym h)

  shift-rotated :
      (i k : ℕ) (fs : Files)
      → shift lm name i fs (rotated k) ≡ (
          if i + 1 == k
          then if exists (rotated i) fs then fs (rotated i) else fs (rotated k)
          else if i == k
          then none
          else fs (rotated k))
  unfolding shift rename
  shift-rotated i k fs = ground (
    arith,
    rotated_file-injective lm.log_dir name (i + 1) k,
    rotated_file-injective lm.log_dir name i k,
    none_of_exists (rotated i) fs,
  )

  shift-other :
      (i : ℕ) (q : String) (fs : Files) → ((k : ℕ) → rotated k ≢ q) → shift lm name i fs q ≡ fs q
  unfolding shift rename
  shift-other i q fs other = ground (arith, other i, other (i + 1))

  shift_all-other :
      (n : ℕ) (q : String) (fs : Files)
      → ((k : ℕ) → rotated k ≢ q)
      → shift_all lm name n fs q ≡ fs q
  unfolding shift_all
  shift_all-other zero q fs other = refl
  shift_all-other (suc n) q fs other =
      shift_all-other n q (shift lm name (suc n) fs) other ∙ shift-other (suc n) q fs other

  shift_all-above :
      (n k : ℕ) (fs : Files) → n + 1 < k → shift_all lm name n fs (rotated k) ≡ fs (rotated k)
  unfolding shift_all
  shift_all-above zero k fs h = refl
  shift_all-above (suc n) k fs h =
      ground (arith, shift_all-above n k (shift lm name (suc n) fs), shift-rotated (suc n) k fs)

  shift_all-first : (n : ℕ) (fs : Files) → shift_all lm name (suc n) fs (rotated 1) ≡ none
  unfolding shift_all
  shift_all-first zero fs = ground (arith, shift-rotated 1 1 fs)
  shift_all-first (suc n) fs = shift_all-first n (shift lm name (suc (suc n)) fs)

  shift_all-last :
      (n : ℕ) (fs : Files)
      → shift_all lm name (suc n) fs (rotated (suc n + 1))
        ≡ (if exists (rotated (suc n)) fs then fs (rotated (suc n)) else fs (rotated (suc n + 1)))
  unfolding shift_all
  shift_all-last n fs =
      shift_all-above n (suc n + 1) (shift lm name (suc n) fs) (omega arith)
      ∙ ground (arith, shift-rotated (suc n) (suc n + 1) fs)

  shift_all-middle :
      (n k : ℕ) (fs : Files)
      → 1 ≤ k
      → k < n
      → shift_all lm name n fs (rotated (k + 1)) ≡ fs (rotated k)
  unfolding shift_all exists
  shift_all-middle zero k fs lo hi = absurd (omega arith)
  shift_all-middle (suc zero) k fs lo hi = absurd (omega arith)
  shift_all-middle (suc (suc n)) k fs lo hi =
      let fs' = shift lm name (suc (suc n)) fs in
      let same : fs' (rotated k) ≡ fs (rotated k) =
        ground (arith, shift-rotated (suc (suc n)) k fs) in
      elim (ℕ_discrete k (suc n)) [
        | yes at_end ↦ rw at_end (
            shift_all-last n fs'
            ∙ ground (
              arith,
              shift-rotated (suc (suc n)) (suc n + 1) fs,
              shift-rotated (suc (suc n)) (suc n) fs,
            ))
        | no inside ↦ shift_all-middle (suc n) k fs' lo (ground arith) ∙ same
      ]

  -- What the rotated file number k + 1 holds after a rotation, from what was there before.
  abbrev pub generation : Files → ℕ → Option Bytes
  generation fs k =
      if k == 0
      then fs current
      else if ltb k (rounds lm)
      then fs (rotated k)
      else if k == rounds lm
      then if exists (rotated k) fs then fs (rotated k) else fs (rotated (k + 1))
      else fs (rotated (k + 1))

  shift_all-generation :
      (n k : ℕ) (fs : Files)
      → 1 ≤ k
      → shift_all lm name n fs (rotated (k + 1)) ≡ (
          if ltb k n
          then fs (rotated k)
          else if k == n
          then if exists (rotated k) fs then fs (rotated k) else fs (rotated (k + 1))
          else fs (rotated (k + 1)))
  shift_all-generation zero k fs lo = ground (arith, shift_all-above 0 (k + 1) fs)
  shift_all-generation (suc n) k fs lo = ground (
    arith,
    shift_all-above (suc n) (k + 1) fs,
    shift_all-middle (suc n) k fs,
    shift_all-last n fs,
  )

  -- Rotating a log empties its place, moves its content to the file numbered 1, and moves the
  -- content of every file numbered k below max_files to number k + 1, where the last of them
  -- replaces what was there; a file with a larger number keeps its content.
  pub rotate-generation :
      (fs : Files) (k : ℕ)
      → (rotate lm name fs current ≡ none) × (rotate lm name fs (rotated (k + 1)) ≡ generation fs k)
  unfolding rotate rename
  rotate-generation fs k =
      let kept = shift_all-other (rounds lm) current fs (current≢rotated) in
      (
        ground (arith, current≢rotated 1),
        ground (
          arith,
          kept,
          current≢rotated (k + 1),
          rotated_file-injective lm.log_dir name 1 (k + 1),
          shift_all-generation (rounds lm) k fs,
        ),
      )

  -- Rotating a log leaves every path alone that is neither the log nor one of its numbered files.
  pub rotate-other :
      (fs : Files) (q : String)
      → q ≢ current
      → ((k : ℕ) → rotated k ≢ q)
      → rotate lm name fs q ≡ fs q
  unfolding rotate rename
  rotate-other fs q h other = ground (arith, other 1, shift_all-other (rounds lm) q fs other)
