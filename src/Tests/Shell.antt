-- ===== src/Tests/Shell.antt =====
-- A shell and a parser of options that read what the program writes: words between spaces, outside of
-- double quotes, and options by their names.
use Prim.Native.Char.{code}
use frequent_cron.Base.{
  [], ℕ, ◌-◌, ◌+◌, ◌*◌, ◌⊎◌, inl, inr, String, ◌<>◌, Bool, false, not, ◌&&◌, Option, none, some,
  List, ◌∷◌, ◌==◌, nat_eq, string_eq, if◌then◌else◌,
}
use frequent_cron.Config.{VariablesMap, ProgramOptions}
use frequent_cron.Base.Int.{pos}
use frequent_cron.Arguments.{
  frequency_is, jitter_is, command_is, pid_file_is, service_name_is, data_dir_is,
  jitter_distribution_is, not_synchronous, fire_probability_is, Argument, stored, no_values,
}

-- The words of a line, with what was read of the first one, and whether a quote is open.
unfoldable pub words_from : Bool → String → String → List String
words_from inside word String.[] = word ∷ []
words_from inside word (String.◌∷◌ c s) =
    let quote = code c == b'"' in
    let space = code c == b' ' && not inside in
    let rest =
      words_from (if quote then not inside else inside)
        (if quote then word else if space then "" else word <> String.◌∷◌ c String.[]) s in
    if space then word ∷ rest else rest

abbrev pub words : String → List String
words line = words_from false "" line

-- What is left of a text behind its beginning.
unfoldable pub cut : String → String → Option String
cut String.[] s = some s
cut (String.◌∷◌ c p) String.[] = none
cut (String.◌∷◌ c p) (String.◌∷◌ c' s) =
    let rest = cut p s in if code c == code c' then rest else none

unfoldable pub number : ℕ → String → ℕ
number acc String.[] = acc
number acc (String.◌∷◌ c s) = number (acc * 10 + (code c - b'0')) s

abbrev prefixes : List (String × (String → Argument ℕ))
prefixes =
    ("--frequency=", λ s. frequency_is (pos (number 0 s)))
    ∷ ("--command=", command_is)
    ∷ ("--pid-file=", pid_file_is)
    ∷ ("--service-name=", service_name_is)
    ∷ ("--data-dir=", data_dir_is)
    ∷ ("--synchronous=", λ s. not_synchronous)
    ∷ ("--jitter=", λ s. jitter_is (pos (number 0 s)))
    ∷ ("--jitter-distribution=", jitter_distribution_is)
    ∷ ("--fire-probability=", λ s. fire_probability_is (number 0 s))
    ∷ []

unfoldable pub recognised : List (String × (String → Argument ℕ)) → String → Option (Argument ℕ)
recognised [] word = none
recognised ((prefix, argument) ∷ rest) word = elim (cut prefix word) [
  | none ↦ recognised rest word
  | some value ↦ some (argument value)
]

unfoldable pub read_options : List String → String ⊎ VariablesMap ℕ
read_options [] = inr no_values
read_options (word ∷ args) = elim (recognised prefixes word) [
  | none ↦ inl ("unrecognised option '" <> word <> "'")
  | some argument ↦ elim (read_options args) [
    | inl message ↦ inl message
    | inr vm ↦ inr (stored argument vm)
  ]
]

abbrev pub reading : ProgramOptions ℕ
reading = record { parse = λ descriptions args. read_options args; describe = λ descriptions. "" }

-- systemd, given the command of a unit.
abbrev pub exec_words : String → List String
exec_words line = elim (cut "ExecStart=" line) [ none ↦ [] | some command ↦ words command ]
