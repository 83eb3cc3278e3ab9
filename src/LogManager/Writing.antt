-- ===== src/LogManager/Writing.antt =====
-- What a sequence of writes keeps of a log: its newest part, in the order written.
use frequent_cron.Base.{
  ℕ, zero, suc, ◌+◌, ◌-◌, ◌≤◌, ◌<◌, ◌≡◌, inl, inr, refl, sym, ap, ◌∙◌, String, Bool, true, false,
  Option, none, some, List, [], ◌∷◌, ◌++◌, arith, string_eq, nat_eq, if◌then◌else◌, Bool-cases, ltb,
  ℕ_discrete,
}
use mathlib.Core.List.{append-nil, append_assoc}
use frequent_cron.Process.{Bytes}
use frequent_cron.LogManager.{
  Files, exists, file_size, put, LogManager, rounds, rotate, rotate_if_needed, entry, append_entry,
  write,
}
use frequent_cron.LogManager.Rotation.{
  rotated, current, current≢rotated, none_of_exists, rotate-generation,
}

unfoldable pub text : Option Bytes → Bytes
text none = []
text (some content) = content

module _ (lm : LogManager) (name : String) where
  -- The content of the files numbered n, …, 1, the oldest first.
  unfoldable pub numbered : ℕ → Files → Bytes
  numbered zero fs = []
  numbered (suc n) fs = text (fs (rotated lm name (suc n))) ++ numbered n fs

  -- All that is kept of the log, the oldest first.
  abbrev pub history : Files → Bytes
  history fs = numbered (suc (rounds lm)) fs ++ text (fs (current lm name))

  -- The content that a rotation with this number of rounds drops.
  unfoldable pub dropped_of : ℕ → Files → Bytes
  dropped_of zero fs = text (fs (rotated lm name 1))
  dropped_of (suc r) fs =
      if exists (rotated lm name (suc r)) fs then text (fs (rotated lm name (suc (suc r)))) else []

  rotated_first : (fs : Files) → rotate lm name fs (rotated lm name 1) ≡ fs (current lm name)
  unfolding ℕ_discrete
  rotated_first fs = (rotate-generation lm name fs 0).1

  rotated_later :
      (k : ℕ) (fs : Files)
      → 1 ≤ k
      → k < rounds lm
      → rotate lm name fs (rotated lm name (suc k)) ≡ fs (rotated lm name k)
  rotated_later k fs lo hi = ground (arith, rotate-generation lm name fs k)

  rotated_last :
      (k : ℕ) (fs : Files)
      → 1 ≤ k
      → rounds lm ≡ k
      → rotate lm name fs (rotated lm name (suc k)) ≡ (
          if exists (rotated lm name k) fs
          then fs (rotated lm name k)
          else fs (rotated lm name (suc k)))
  rotated_last k fs lo last = ground (arith, rotate-generation lm name fs k)

  numbered-rotate :
      (k : ℕ) (fs : Files)
      → k < rounds lm + (1 - rounds lm)
      → numbered (suc k) (rotate lm name fs) ≡ numbered k fs ++ text (fs (current lm name))
  unfolding numbered
  numbered-rotate zero fs h =
      ap (λ o. text o ++ []) (rotated_first fs) ∙ append-nil (text (fs (current lm name)))
  numbered-rotate (suc k) fs h =
      let older = text (fs (rotated lm name (suc k))) in
      ap (λ o. text o ++ numbered (suc k) (rotate lm name fs))
        (rotated_later (suc k) fs (omega arith) (omega arith))
      ∙ ap (older ++◌) (numbered-rotate k fs (omega arith))
      ∙ sym (append_assoc older (numbered k fs) (text (fs (current lm name))))

  pub emptied : (fs : Files) → text (rotate lm name fs (current lm name)) ≡ []
  unfolding text
  emptied fs = ap text (rotate-generation lm name fs 0).0

  history_of : ℕ → Files → Bytes
  history_of r fs = numbered (suc r) fs ++ text (fs (current lm name))

  moved :
      (r : ℕ) (fs : Files)
      → rounds lm ≡ suc r
      → history_of (suc r) (rotate lm name fs)
        ≡ text (
            if exists (rotated lm name (suc r)) fs
            then fs (rotated lm name (suc r))
            else fs (rotated lm name (suc (suc r))))
          ++ (numbered r fs ++ text (fs (current lm name)))
  unfolding numbered history_of
  moved r fs h =
      simp
        (
          rotated_last (suc r) fs (omega arith) h,
          numbered-rotate r fs (omega arith),
          emptied fs,
          append-nil,
        )
        refl

  history_of-rotate :
      (r : ℕ) (fs : Files)
      → rounds lm ≡ r
      → dropped_of r fs ++ history_of r (rotate lm name fs) ≡ history_of r fs
  unfolding dropped_of numbered history_of text exists
  history_of-rotate zero fs h =
      simp (numbered-rotate 0 fs (omega arith), emptied fs, append-nil) refl
  history_of-rotate (suc r) fs h = elim (Bool-cases (exists (rotated lm name (suc r)) fs)) [
    | inl there ↦ simp (moved r fs h, there, append_assoc) refl
    | inr missing ↦ simp (moved r fs h, missing, none_of_exists _ fs missing, append_assoc) refl
  ]

  -- A rotation of an existing log keeps all of it but what it drops.
  history-rotate :
      (fs : Files) → dropped_of (rounds lm) fs ++ history (rotate lm name fs) ≡ history fs
  unfolding history_of
  history-rotate fs = history_of-rotate (rounds lm) fs refl

  -- The content that one write drops.
  abbrev pub lost : Bytes → Files → Bytes
  lost [] fs = []
  lost (c ∷ s) fs =
      if exists (current lm name) fs
      then if ltb (file_size (current lm name) fs) lm.max_file_size
        then []
        else dropped_of (rounds lm) fs
      else []

  -- What one write adds.
  abbrev pub added : Bool → Bytes → Bytes → Bytes
  added opens time [] = []
  added opens time (c ∷ s) = if opens then entry time (c ∷ s) else []

  history-rotate_if_needed :
      (c : ℕ) (s : Bytes) (fs : Files)
      → lost (c ∷ s) fs ++ history (rotate_if_needed lm name fs) ≡ history fs
  unfolding rotate_if_needed
  history-rotate_if_needed c s fs = ground (arith, history-rotate fs)

  numbered-append_entry :
      (n : ℕ) (e : Bytes) (fs : Files)
      → numbered n (append_entry lm (current lm name) e fs) ≡ numbered n fs
  unfolding numbered append_entry put
  numbered-append_entry zero e fs = refl
  numbered-append_entry (suc n) e fs =
      let same : append_entry lm (current lm name) e fs (rotated lm name (suc n))
          ≡ fs (rotated lm name (suc n)) =
        ground (arith, current≢rotated lm name (suc n)) in
      ap (λ o. text o ++ numbered n (append_entry lm (current lm name) e fs)) same
      ∙ ap (text (fs (rotated lm name (suc n))) ++◌) (numbered-append_entry n e fs)

  pub text-append_entry :
      (e : Bytes) (fs : Files)
      → text (append_entry lm (current lm name) e fs (current lm name))
        ≡ text (fs (current lm name)) ++ e
  unfolding append_entry put text
  text-append_entry e fs = ground arith

  history-append_entry :
      (e : Bytes) (fs : Files) → history (append_entry lm (current lm name) e fs) ≡ history fs ++ e
  history-append_entry e fs =
      simp (numbered-append_entry, text-append_entry)
        (sym (append_assoc (numbered (suc (rounds lm)) fs) (text (fs (current lm name))) e))

  -- After one write the log and its numbered files hold, the oldest first, what they held and the
  -- new entry, less the content that a rotation drops; nothing is dropped unless the log has reached
  -- max_file_size.
  pub write-history :
      (opens : Bool) (time output : Bytes) (fs : Files)
      → lost output fs ++ history (write lm opens time name output fs)
        ≡ history fs ++ added opens time output
  unfolding write
  write-history opens time [] fs = sym (append-nil (history fs))
  write-history true time (c ∷ s) fs =
      let before = rotate_if_needed lm name fs in
      let e = entry time (c ∷ s) in
      ap (lost (c ∷ s) fs ++◌) (history-append_entry e before)
      ∙ sym (append_assoc (lost (c ∷ s) fs) (history before) e)
      ∙ ap (◌++ e) (history-rotate_if_needed c s fs)
  write-history false time (c ∷ s) fs =
      history-rotate_if_needed c s fs ∙ sym (append-nil (history fs))

-- One call of `write`, with what it finds.
pub record Writing : Type 0 where
  pub opens : Bool
  pub time : Bytes
  pub output : Bytes

abbrev pub write_all : LogManager → String → List Writing → Files → Files
write_all lm name [] fs = fs
write_all lm name (w ∷ ws) fs = write_all lm name ws (write lm w.opens w.time name w.output fs)

abbrev pub added_all : LogManager → String → List Writing → Bytes
added_all lm name [] = []
added_all lm name (w ∷ ws) = added lm name w.opens w.time w.output ++ added_all lm name ws

-- Whatever is written, the log and its numbered files hold together, the oldest first, the end of
-- what they held at first followed by every entry written.
pub write_all-history :
    (lm : LogManager) (name : String) (ws : List Writing) (fs : Files)
    → (gone : Bytes) × (gone ++ history lm name (write_all lm name ws fs)
        ≡ history lm name fs ++ added_all lm name ws)
write_all-history lm name [] fs = ([], sym (append-nil (history lm name fs)))
write_all-history lm name (w ∷ ws) fs =
    let after = write lm w.opens w.time name w.output fs in
    let rest = write_all-history lm name ws after in
    let first = lost lm name w.output fs in
    let e = added lm name w.opens w.time w.output in
    (
      first ++ rest.0,
      append_assoc first rest.0 _
          ∙ ap (first ++◌) rest.1
          ∙ sym (append_assoc first (history lm name after) (added_all lm name ws))
          ∙ ap (◌++ added_all lm name ws) (write-history lm name w.opens w.time w.output fs)
          ∙ append_assoc (history lm name fs) e (added_all lm name ws),
    )
