-- ===== src/Process/Output.antt =====
-- What `run_process` hands back of the command's output.
use mathlib.Core.List.{append-nil, append_assoc}
use frequent_cron.Base.{
  [], ℕ, zero, suc, ◌+◌, ◌≤◌, ◌<◌, ◌≡◌, ◌≢◌, refl, ap, ◌∙◌, some, ◌∷◌, ◌++◌, arith, nat_eq,
}
use frequent_cron.Base.Lists.{length}
use frequent_cron.Base.Int.{pos}
use frequent_cron.Process.{
  Bytes, Pipe, fgets, c_string, read_pipe, run_process, buffer_room, exited, exit_code_of,
}

-- No byte of the text is NUL.
abbrev pub IsText : Bytes → Type 0
IsText [] = Unit
IsText (c ∷ s) = (c ≢ 0) × IsText s

-- One read splits the stream.
fgets_split : (n : ℕ) (s : Bytes) → (fgets n s).0 ++ (fgets n s).1 ≡ s
unfolding fgets
fgets_split zero s = refl
fgets_split (suc n) [] = refl
fgets_split (suc n) (c ∷ s) = ground (arith, fgets_split n s)

fgets-IsText : (n : ℕ) (s : Bytes) → IsText s → IsText (fgets n s).0 × IsText (fgets n s).1
unfolding fgets
fgets-IsText zero s h = (tt, h)
fgets-IsText (suc n) [] h = (tt, tt)
fgets-IsText (suc n) (c ∷ s) h = ground (arith, fgets-IsText n s h.1)

fgets_shorter : (n : ℕ) (c : ℕ) (s : Bytes) → 0 < n → length (fgets n (c ∷ s)).1 ≤ length s
unfolding fgets
fgets_shorter zero c s h = absurd (omega arith)
fgets_shorter (suc zero) c s h = ground arith
fgets_shorter (suc (suc n)) c [] h = ground arith
fgets_shorter (suc (suc n)) c (d ∷ s) h = ground (arith, fgets_shorter (suc n) d s)

c_string-eq_of_IsText : (s : Bytes) → IsText s → c_string s ≡ s
unfolding c_string
c_string-eq_of_IsText [] h = refl
c_string-eq_of_IsText (c ∷ s) h = ground (arith, c_string-eq_of_IsText s h.1)

read_pipe-append :
    (fuel : ℕ) (s out : Bytes) → length s ≤ fuel → IsText s → read_pipe fuel s out ≡ out ++ s
unfolding read_pipe
read_pipe-append zero [] out le h = rw append-nil
read_pipe-append zero (c ∷ s) out le h = absurd (omega arith)
read_pipe-append (suc fuel) [] out le h = rw append-nil
read_pipe-append (suc fuel) (c ∷ s) out le h =
    let read = fgets buffer_room (c ∷ s) in
    let text = fgets-IsText buffer_room (c ∷ s) h in
    let less = fgets_shorter buffer_room c s (omega arith) in
    read_pipe-append fuel read.1 (out ++ c_string read.0) (omega arith) text.1
    ∙ rw (c_string-eq_of_IsText read.0 text.0, append_assoc)
        (ap (λ (r : Bytes). out ++ r) (fgets_split buffer_room (c ∷ s)))

-- A command that could be started, and printed no NUL byte, has its whole output captured,
-- however long it is; its exit code is the one that it gave to `exit`.
pub run_process_captures :
    (stream : Bytes) (n : ℕ)
    → IsText stream
    → run_process (some (record { stream = stream; status = exited n }))
      ≡ record { stdout_data = stream; stderr_data = ""; exit_code = pos n }
unfolding run_process exit_code_of
run_process_captures stream n h =
    ap (λ out. record { stdout_data = out; stderr_data = ""; exit_code = pos n })
      (read_pipe-append (length stream + 1) stream [] (omega arith) h)

-- The reading loop without a bound on its rounds: from what the stream has left and what was read so
-- far it comes, in so many rounds, to what was read in the end. Only an empty stream ends it.
pub data ReadsTo : ℕ → Bytes → Bytes → Bytes → Type 0 where
  at_end : (out : Bytes) → ReadsTo 0 [] out out
  round :
      {n c : ℕ} {s out all : Bytes}
      → ReadsTo n (fgets buffer_room (c ∷ s)).1 (out ++ c_string (fgets buffer_room (c ∷ s)).0) all
      → ReadsTo (suc n) (c ∷ s) out all

read_pipe-Reads :
    (fuel : ℕ) (s out : Bytes)
    → length s < fuel
    → (n : ℕ) × (n ≤ length s) × ReadsTo n s out (read_pipe fuel s out)
unfolding read_pipe
read_pipe-Reads zero s out lt = absurd (omega arith)
read_pipe-Reads (suc fuel) [] out lt = (0, omega arith, at_end out)
read_pipe-Reads (suc fuel) (c ∷ s) out lt =
    let read = fgets buffer_room (c ∷ s) in
    let less = fgets_shorter buffer_room c s (omega arith) in
    let (n, le, rest) = read_pipe-Reads fuel read.1 (out ++ c_string read.0) (omega arith) in
    (suc n, omega arith, round rest)

-- Whatever a command prints, NUL included, and however it ends: the loop of `run_process`, which only
-- an empty stream ends, does end, after at most as many rounds as there are bytes; the output that is
-- handed back is what the loop has read then, and the exit code is the one of the status.
pub run_process-ReadsTo :
    (pipe : Pipe)
    → let result = run_process (some pipe) in
      (n : ℕ) × (n ≤ length pipe.stream)
      × ReadsTo n pipe.stream [] result.stdout_data
      × (result.exit_code ≡ exit_code_of pipe.status)
unfolding run_process
run_process-ReadsTo pipe =
    let (n, le, reads) = read_pipe-Reads (length pipe.stream + 1) pipe.stream [] (omega arith) in
    (n, le, reads, refl)
