-- ===== src/Config/Parsing.antt =====
-- What is true of every command line that is accepted, and of some that are not.
use frequent_cron.Base.{
  ◌≡◌, ◌≢◌, ◌⊎◌, inl, inr, sym, ap, ◌∙◌, String, true, false, none, some, List, [], ◌∷◌, arith,
  Bool-cases, Option-cases,
}
use frequent_cron.External.{Double}
use frequent_cron.Config.{
  Subcommand, run, install, remove, start, stop, status, list, logs, legacy, ok, parse_error,
  ParseOutput, ProgramOptions, subcommand_map, lookup,
}
use frequent_cron.Config.Parser.{
  is_option, parse_common_options, try_parse, require, run_config, run_values, parse_run_args,
  install_values, parse_install_args, name_only, parse_name_subcommand, with_name, parse_status,
  parse_subcommand, parse_args,
}

module _ {D : Type 0} (d : Double D) (po : ProgramOptions D) where
  -- The subcommand of an output that was accepted.
  abbrev Accepts : Subcommand → ParseOutput D → Type 0
  Accepts s o = o.result ≡ ok → o.config.subcommand ≡ s

  parse_run_args-Accepts :
      (args : List String) (s : Subcommand) → Accepts s (parse_run_args d po args s)
  unfolding parse_run_args try_parse run_values run_config parse_common_options require
  parse_run_args-Accepts args s = ground arith

  parse_install_args-Accepts :
      (args : List String) (name : String) → Accepts install (parse_install_args d po args name)
  unfolding parse_install_args try_parse install_values parse_common_options require
  parse_install_args-Accepts args name = ground arith

  parse_name_subcommand-Accepts :
      (args : List String) (s : Subcommand) (name : String)
      → Accepts s (parse_name_subcommand d po args s name)
  unfolding parse_name_subcommand name_only try_parse parse_common_options
  parse_name_subcommand-Accepts args s name = ground arith

  with_name-Accepts :
      (s : Subcommand) (message : String) (args : List String)
      (go : String → List String → ParseOutput D)
      → ((name : String) (rest : List String) → Accepts s (go name rest))
      → Accepts s (with_name d po message args go)
  unfolding with_name
  with_name-Accepts s message [] go h = ground arith
  with_name-Accepts s message (name ∷ rest) go h = ground (arith, h name rest)

  parse_subcommand-Accepts :
      (s : Subcommand) (word : String) (args : List String)
      → Accepts s (parse_subcommand d po s word args)
  unfolding parse_subcommand parse_status name_only try_parse parse_common_options
  parse_subcommand-Accepts run word args = parse_run_args-Accepts args run
  parse_subcommand-Accepts install word args =
      with_name-Accepts install _ args _ (λ name rest. parse_install_args-Accepts rest name)
  parse_subcommand-Accepts remove word args =
      with_name-Accepts remove _ args _
        (λ name rest. parse_name_subcommand-Accepts rest remove name)
  parse_subcommand-Accepts start word args =
      with_name-Accepts start _ args _ (λ name rest. parse_name_subcommand-Accepts rest start name)
  parse_subcommand-Accepts stop word args =
      with_name-Accepts stop _ args _ (λ name rest. parse_name_subcommand-Accepts rest stop name)
  parse_subcommand-Accepts logs word args =
      with_name-Accepts logs _ args _ (λ name rest. parse_name_subcommand-Accepts rest logs name)
  parse_subcommand-Accepts status word [] = parse_name_subcommand-Accepts [] status ""
  parse_subcommand-Accepts status word (name ∷ rest) = ground (
    arith,
    parse_name_subcommand-Accepts (name ∷ rest) status "",
    parse_name_subcommand-Accepts rest status name,
  )
  parse_subcommand-Accepts list word args = ground arith
  parse_subcommand-Accepts legacy word args = ground arith

  -- The two words that ask for help are options.
  not_help : (word : String) → is_option word ≡ false → (word ≢ "--help") × (word ≢ "-h")
  unfolding is_option
  not_help word plain =
      ((λ e. ground (arith, ap is_option e)), (λ e. ground (arith, ap is_option e)))

  pub parse_args-known :
      (word : String) (args : List String) (s : Subcommand)
      → is_option word ≡ false
      → lookup word subcommand_map ≡ some s
      → parse_args d po (word ∷ args) ≡ parse_subcommand d po s word args
  unfolding parse_args
  parse_args-known word args s plain found = simp found (ground (arith, not_help word plain))

  parse_args-unknown :
      (word : String) (args : List String)
      → is_option word ≡ false
      → lookup word subcommand_map ≡ none
      → (parse_args d po (word ∷ args)).result ≡ parse_error
  unfolding parse_args
  parse_args-unknown word args plain missing = simp missing (ground (arith, not_help word plain))

  parse_args-option :
      (word : String) (args : List String)
      → word ≢ "--help"
      → word ≢ "-h"
      → is_option word ≡ true
      → parse_args d po (word ∷ args) ≡ parse_run_args d po (word ∷ args) legacy
  unfolding parse_args
  parse_args-option word args not_long not_short dash = ground arith

  accepted_option :
      (word : String) (args : List String)
      → is_option word ≡ true
      → Accepts legacy (parse_args d po (word ∷ args))
  unfolding parse_args
  accepted_option word args dash = ground (arith, parse_run_args-Accepts (word ∷ args) legacy)

  accepted_word :
      (word : String) (args : List String) (s : Subcommand)
      → parse_args d po (word ∷ args) ≡ parse_subcommand d po s word args
      → Accepts s (parse_args d po (word ∷ args))
  accepted_word word args s known accepted =
      ap (λ o. o.config.subcommand) known
      ∙ parse_subcommand-Accepts s word args (sym (ap (λ o. o.result) known) ∙ accepted)

  -- A command line that is accepted names its subcommand by the first word, or starts with an option
  -- and is a legacy one.
  pub parse_args-subcommand :
      (word : String) (args : List String)
      → (parse_args d po (word ∷ args)).result ≡ ok
      → let chosen = (parse_args d po (word ∷ args)).config.subcommand in
        ((is_option word ≡ true) × (chosen ≡ legacy))
        ⊎ ((is_option word ≡ false) × (lookup word subcommand_map ≡ some chosen))
  parse_args-subcommand word args accepted = elim (Bool-cases (is_option word)) [
    | inl dash ↦ inl (dash, accepted_option word args dash accepted)
    | inr plain ↦ elim (Option-cases (lookup word subcommand_map)) [
      | inl missing ↦ ground (arith, parse_args-unknown word args plain missing)
      | inr found ↦
          let known = parse_args-known word args found.0 plain found.1 in
          inr (plain, found.1 ∙ ap some (sym (accepted_word word args found.0 known accepted)))
    ]
  ]

  abbrev as_legacy : ParseOutput D → ParseOutput D
  as_legacy o = record o { config = record o.config { subcommand = legacy } }

  legacy-run :
      (args : List String)
      → parse_run_args d po args legacy ≡ (
          let o = parse_run_args d po args run in
          record o { config = record o.config { subcommand = legacy } })
  unfolding parse_run_args try_parse run_values run_config parse_common_options require
  legacy-run args = ground arith

  -- Without the word `run` a command line that starts with an option, other than the two that ask
  -- for help, gives the output of `run`, but for the subcommand.
  pub parse_args-legacy :
      (word : String) (args : List String)
      → word ≢ "--help"
      → word ≢ "-h"
      → is_option word ≡ true
      → let with_run = parse_args d po ("run" ∷ word ∷ args) in
        parse_args d po (word ∷ args)
        ≡ record with_run { config = record with_run.config { subcommand = legacy } }
  unfolding parse_subcommand lookup is_option
  parse_args-legacy word args not_long not_short dash =
      parse_args-option word args not_long not_short dash
      ∙ legacy-run (word ∷ args)
      ∙ sym (ap as_legacy (parse_args-known "run" (word ∷ args) run (ground arith) (ground arith)))
