-- ===== src/PidFile.antt =====
-- src/pid_file.cc, and how src/service_registry.cc reads the number back with `pf >> pid`.
use frequent_cron.Base.{
  ℕ, zero, suc, ◌+◌, ◌-◌, ◌*◌, ◌/◌, ◌%◌, ◌^◌, ◌<◌, ◌≡◌, inl, inr, refl, ap, ◌∙◌, String, Bool, true,
  false, ◌&&◌, ◌||◌, [], ◌∷◌, arith, ◌==◌, string_eq, nat_eq, if◌then◌else◌, Bool-cases, ltb, leb,
  ℕ_discrete,
}
use frequent_cron.Base.Int.{ℤ, pos, negsuc, negate}
use Prim.Native.Char.{code}
use frequent_cron.Base.Decimal.{digit, code-digit, decimal, decimal_onto, to_string}
use frequent_cron.Process.{Bytes}

-- The bytes of an ASCII text.
abbrev pub codes : String → Bytes
codes String.[] = []
codes (String.◌∷◌ c s) = code c ∷ codes s

-- What `write_pid_file` leaves in a file that could be opened: the number, and nothing behind it.
unfoldable pub pid_file_content : ℤ → Bytes
unfolding to_string
pid_file_content pid = codes (to_string pid)

is_space : ℕ → Bool
is_space c = c == 32 || (leb 9 c && leb c 13)

is_digit : ℕ → Bool
is_digit c = leb b'0' c && leb c b'9'

pub skip_spaces : Bytes → Bytes
skip_spaces [] = []
skip_spaces (c ∷ s) = if is_space c then skip_spaces s else c ∷ s

-- The number that the digits at the front stand for; `none` where there is no digit.
digits_value : ℕ → Bytes → ℕ
digits_value acc [] = acc
digits_value acc (c ∷ s) = if is_digit c then digits_value (acc * 10 + (c - b'0')) s else acc

starts_digit : Bytes → Bool
starts_digit [] = false
starts_digit (c ∷ s) = is_digit c

-- `>>` into an `int`: 0 where no number stands, and the nearest limit for one that is out of range.
clamp_int : Bool → ℕ → ℤ
clamp_int minus n =
    if minus
    then if ltb (2 ^ 31) n then negate (pos (2 ^ 31)) else negate (pos n)
    else if ltb n (2 ^ 31)
    then pos n
    else pos (2 ^ 31 - 1)

signed_value : Bool → Bytes → ℤ
signed_value minus s = if starts_digit s then clamp_int minus (digits_value 0 s) else pos 0

pub after_sign : Bytes → ℤ
after_sign [] = pos 0
after_sign (c ∷ s) =
    if c == b'-'
    then signed_value true s
    else if c == b'+'
    then signed_value false s
    else signed_value false (c ∷ s)

unfoldable pub extract_int : Bytes → ℤ
extract_int s = after_sign (skip_spaces s)

extract_samples :
    (extract_int (codes " 4711\n") ≡ pos 4711)
    × (extract_int (codes "-12x") ≡ negsuc 11)
    × (extract_int (codes "x1") ≡ pos 0)
    × (extract_int (codes "99999999999") ≡ pos 2147483647)
unfolding extract_int is_space is_digit skip_spaces digits_value starts_digit clamp_int signed_value
    after_sign ℕ_discrete
extract_samples = (refl, refl, refl, refl)

is_digit-digit : (n : ℕ) → n < 10 → is_digit (code (digit n)) ≡ true
unfolding is_digit
is_digit-digit n h = ground (arith, code-digit n h)

digits_value-decimal_onto :
    (fuel n : ℕ) (acc : String)
    → n < fuel
    → digits_value 0 (codes (decimal_onto fuel n acc)) ≡ digits_value n (codes acc)
unfolding decimal_onto digits_value
digits_value-decimal_onto zero n acc h = absurd (omega arith)
digits_value-decimal_onto (suc fuel) n acc h = elim (Bool-cases (ltb n 10)) [
  | inl last ↦
      rw (last, is_digit-digit n (ground arith))
        (ap (λ k. digits_value k (codes acc)) (omega (arith, code-digit n (ground arith))))
  | inr more ↦ rw more (
      digits_value-decimal_onto fuel (n / 10) _ (ground arith)
      ∙ rw (is_digit-digit (n % 10) (omega arith))
          (ap (λ k. digits_value k (codes acc)) (omega (arith, code-digit (n % 10) (omega arith)))))
]

starts_digit-decimal_onto :
    (fuel n : ℕ) (acc : String) → n < fuel → starts_digit (codes (decimal_onto fuel n acc)) ≡ true
unfolding decimal_onto starts_digit
starts_digit-decimal_onto zero n acc h = absurd (omega arith)
starts_digit-decimal_onto (suc fuel) n acc h = elim (Bool-cases (ltb n 10)) [
  | inl last ↦ rw last (is_digit-digit n (ground arith))
  | inr more ↦ rw more (starts_digit-decimal_onto fuel (n / 10) _ (ground arith))
]

not-is_space : (c : ℕ) → is_digit c ≡ true → is_space c ≡ false
unfolding is_digit is_space
not-is_space c h = ground arith

skip_spaces-digit : (c : ℕ) (s : Bytes) → is_digit c ≡ true → skip_spaces (c ∷ s) ≡ c ∷ s
unfolding skip_spaces
skip_spaces-digit c s h = rw (not-is_space c h)

after_sign-digit :
    (c : ℕ) (s : Bytes) → is_digit c ≡ true → after_sign (c ∷ s) ≡ signed_value false (c ∷ s)
unfolding after_sign is_digit
after_sign-digit c s h = ground arith

extract_int_of_digits :
    (s : Bytes)
    → starts_digit s ≡ true
    → digits_value 0 s < 2 ^ 31
    → extract_int s ≡ pos (digits_value 0 s)
unfolding extract_int
extract_int_of_digits [] h fits = unfold starts_digit in cc
extract_int_of_digits (c ∷ s) h fits =
    let first : is_digit c ≡ true = unfold starts_digit in h in
    rw (skip_spaces-digit c s first, after_sign-digit c s first)
      (unfold signed_value clamp_int in rw h (ground arith))

-- A process id that the daemon writes to its PID file is the number that `start` and `stop` read
-- from it.
pub extract_int-pid_file_content :
    (n : ℕ) → n < 2 ^ 31 → extract_int (pid_file_content (pos n)) ≡ pos n
unfolding pid_file_content decimal
extract_int-pid_file_content n h =
    let v : digits_value 0 (codes (decimal_onto (suc n) n "")) ≡ n =
      digits_value-decimal_onto (suc n) n "" (omega arith) ∙ unfold digits_value in refl in
    extract_int_of_digits _ (starts_digit-decimal_onto (suc n) n "" (omega arith)) (rw v h)
    ∙ ap pos v
