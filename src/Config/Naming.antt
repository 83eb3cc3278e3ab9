-- ===== src/Config/Naming.antt =====
-- The subcommands that need a name, and where they take it from.
use frequent_cron.Base.{
  ◌≡◌, inl, inr, refl, sym, ap, ◌∙◌, String, Bool, true, false, some, List, [], ◌∷◌, arith,
  Bool-cases,
}
use frequent_cron.External.{Double}
use frequent_cron.Config.{
  Subcommand, run, install, remove, start, stop, status, list, logs, legacy, ok, parse_error,
  ParseOutput, ProgramOptions, subcommand_map, lookup,
}
use frequent_cron.Config.Parser.{
  is_option, parse_common_options, try_parse, require, install_values, parse_install_args,
  name_only, parse_name_subcommand, with_name, parse_subcommand, parse_args,
}
use frequent_cron.Config.Parsing.{parse_args-known}

-- The subcommands that need a name.
abbrev pub takes_name : Subcommand → Bool
takes_name install = true
takes_name remove = true
takes_name start = true
takes_name stop = true
takes_name logs = true
takes_name _ = false

module _ {D : Type 0} (d : Double D) (po : ProgramOptions D) where
  -- The subcommands that need a name are refused where an option stands in its place, `--help` too.
  pub parse_args-missing_name :
      (word option : String) (rest : List String) (s : Subcommand)
      → is_option word ≡ false
      → lookup word subcommand_map ≡ some s
      → takes_name s ≡ true
      → is_option option ≡ true
      → (parse_args d po (word ∷ option ∷ rest)).result ≡ parse_error
  unfolding parse_subcommand with_name
  parse_args-missing_name word option rest s plain found needs dash =
      ap (λ o. o.result) (parse_args-known d po word (option ∷ rest) s plain found) ∙ ground arith

  Names : String → ParseOutput D → Type 0
  Names name o = o.result ≡ ok → o.config.service_name ≡ name

  parse_install_args-Names :
      (args : List String) (name : String) → Names name (parse_install_args d po args name)
  unfolding Names parse_install_args try_parse install_values parse_common_options require
  parse_install_args-Names args name = ground arith

  parse_name_subcommand-Names :
      (args : List String) (s : Subcommand) (name : String)
      → Names name (parse_name_subcommand d po args s name)
  unfolding Names parse_name_subcommand name_only try_parse parse_common_options
  parse_name_subcommand-Names args s name = ground arith

  parse_subcommand-Names :
      (s : Subcommand) (word name : String) (rest : List String)
      → takes_name s ≡ true
      → is_option name ≡ false
      → Names name (parse_subcommand d po s word (name ∷ rest))
  unfolding parse_subcommand with_name
  parse_subcommand-Names install word name rest needs plain =
      rw plain (parse_install_args-Names rest name)
  parse_subcommand-Names remove word name rest needs plain =
      rw plain (parse_name_subcommand-Names rest remove name)
  parse_subcommand-Names start word name rest needs plain =
      rw plain (parse_name_subcommand-Names rest start name)
  parse_subcommand-Names stop word name rest needs plain =
      rw plain (parse_name_subcommand-Names rest stop name)
  parse_subcommand-Names logs word name rest needs plain =
      rw plain (parse_name_subcommand-Names rest logs name)
  parse_subcommand-Names run word name rest needs plain = ground arith
  parse_subcommand-Names status word name rest needs plain = ground arith
  parse_subcommand-Names list word name rest needs plain = ground arith
  parse_subcommand-Names legacy word name rest needs plain = ground arith

  parse_subcommand-nameless :
      (s : Subcommand) (word : String)
      → takes_name s ≡ true
      → (parse_subcommand d po s word []).result ≡ parse_error
  unfolding parse_subcommand with_name
  parse_subcommand-nameless s word needs = ground arith

  -- A subcommand that needs a name is accepted only with one, directly behind it, and the name that
  -- it is about is that one.
  pub parse_args-name :
      (word : String) (args : List String) (s : Subcommand)
      → is_option word ≡ false
      → lookup word subcommand_map ≡ some s
      → takes_name s ≡ true
      → (parse_args d po (word ∷ args)).result ≡ ok
      → (name : String) × (rest : List String) × (args ≡ name ∷ rest)
        × (is_option name ≡ false)
        × ((parse_args d po (word ∷ args)).config.service_name ≡ name)
  unfolding Names
  parse_args-name word [] s plain found needs accepted =
      ground
        (arith, parse_args-known d po word [] s plain found, parse_subcommand-nameless s word needs)
  parse_args-name word (name ∷ rest) s plain found needs accepted =
      elim (Bool-cases (is_option name)) [
        | inl dash ↦ ground (arith, parse_args-missing_name word name rest s plain found needs dash)
        | inr named ↦
            let known = parse_args-known d po word (name ∷ rest) s plain found in
            (
              name,
              rest,
              refl,
              named,
              ap (λ o. o.config.service_name) known
                  ∙ parse_subcommand-Names s word name rest needs named
                      (sym (ap (λ o. o.result) known) ∙ accepted),
            )
      ]
