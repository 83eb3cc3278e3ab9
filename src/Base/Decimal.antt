-- ===== src/Base/Decimal.antt =====
-- `std::to_string` of an `int`, and that different numbers are written differently.
use Prim.Native.Char.{Char, code}
use Prim.Native.String.{String, [], ◌∷◌, ◌++◌ as ◌<>◌}
use Prim.Native.Nat.{ℕ, zero, suc, ◌+◌, ◌-◌, ◌*◌, ◌/◌, ◌%◌, ◌<◌}
use mathlib.Core.Path.{◌≡◌, refl, sym, ap, ◌∙◌}
use mathlib.Core.Logic.{inl, inr}
use native.Mathlib.Omega.{arith}
use frequent_cron.Base.Tests.{ltb, if◌then◌else◌, Bool-cases}
use frequent_cron.Base.Int.{ℤ, pos, negsuc}

unfoldable pub digit : ℕ → Char
digit zero = "0"
digit (suc zero) = "1"
digit (suc (suc zero)) = "2"
digit (suc (suc (suc zero))) = "3"
digit (suc (suc (suc (suc zero)))) = "4"
digit (suc (suc (suc (suc (suc zero))))) = "5"
digit (suc (suc (suc (suc (suc (suc zero)))))) = "6"
digit (suc (suc (suc (suc (suc (suc (suc zero))))))) = "7"
digit (suc (suc (suc (suc (suc (suc (suc (suc zero)))))))) = "8"
digit _ = "9"

pub code-digit : (n : ℕ) → n < 10 → code (digit n) ≡ 48 + n
unfolding digit
code-digit zero h = refl
code-digit (suc zero) h = refl
code-digit (suc (suc zero)) h = refl
code-digit (suc (suc (suc zero))) h = refl
code-digit (suc (suc (suc (suc zero)))) h = refl
code-digit (suc (suc (suc (suc (suc zero))))) h = refl
code-digit (suc (suc (suc (suc (suc (suc zero)))))) h = refl
code-digit (suc (suc (suc (suc (suc (suc (suc zero))))))) h = refl
code-digit (suc (suc (suc (suc (suc (suc (suc (suc zero)))))))) h = refl
code-digit (suc (suc (suc (suc (suc (suc (suc (suc (suc zero))))))))) h = refl
code-digit (suc (suc (suc (suc (suc (suc (suc (suc (suc (suc n)))))))))) h = absurd (omega arith)

-- The digits of a number in front of a text. The fuel is more than the number has digits.
unfoldable pub decimal_onto : ℕ → ℕ → String → String
decimal_onto zero n acc = acc
decimal_onto (suc fuel) n acc =
    let rest = decimal_onto fuel (n / 10) (digit (n % 10) ∷ acc) in
    if ltb n 10 then digit n ∷ acc else rest

unfoldable pub decimal : ℕ → String
unfolding decimal_onto digit
decimal n = decimal_onto (suc n) n []

unfoldable pub to_string : ℤ → String
unfolding decimal
to_string (pos n) = decimal n
to_string (negsuc n) = "-" <> decimal (suc n)

-- The number that a run of digits stands for, from what was read before it.
value : ℕ → String → ℕ
value acc [] = acc
value acc (c ∷ s) = value (acc * 10 + (code c - 48)) s

code-sub_digit : (n : ℕ) → n < 10 → 0 * 10 + (code (digit n) - 48) ≡ n
code-sub_digit n h = omega (arith, code-digit n h)

value_digit : (n : ℕ) → n / 10 * 10 + (code (digit (n % 10)) - 48) ≡ n
value_digit n = omega (arith, code-digit (n % 10) (omega arith))

value-decimal_onto :
    (fuel n : ℕ) (acc : String) → n < fuel → value 0 (decimal_onto fuel n acc) ≡ value n acc
unfolding decimal_onto value
value-decimal_onto zero n acc h = absurd (omega arith)
value-decimal_onto (suc fuel) n acc h = elim (Bool-cases (ltb n 10)) [
  | inl last ↦ rw last (ap (λ k. value k acc) (code-sub_digit n (ground arith)))
  | inr more ↦ rw more (
      value-decimal_onto fuel (n / 10) (digit (n % 10) ∷ acc) (ground arith)
      ∙ ap (λ k. value k acc) (value_digit n))
]

value-decimal : (n : ℕ) → value 0 (decimal n) ≡ n
value-decimal n =
    unfold decimal in (value-decimal_onto (suc n) n [] (omega arith) ∙ unfold value in refl)

-- Different numbers are written differently.
pub decimal-injective : (m n : ℕ) → decimal m ≡ decimal n → m ≡ n
decimal-injective m n h = sym (value-decimal m) ∙ ap (value 0) h ∙ value-decimal n

decimal_4095 : decimal 4095 ≡ "4095"
unfolding decimal
decimal_4095 = refl
