-- ===== src/Bot/Main/Arguments.antt =====
-- What an accepted command line has.
use polymarket_tickscope.Base.{
  ◌≡◌, refl, subst, ◌⊎◌, inl, inr, List, [], ◌∷◌, false, Option-cases, Bool-cases, ℕ,
}
use polymarket_tickscope.Base.Text.{Text}
use polymarket_tickscope.Base.Double.{Double}
use polymarket_tickscope.Bot.Main.{
  CliArgs, Parsed, returned, exited, with_value, without_value, parse_from, parse_args, no_args,
}

module _ (num : Double) (atof : Text → num.F) where
  open num use {decimal, le}

  Parsed-cases :
      (p : Parsed num atof)
      → ((args : CliArgs num atof) × (p ≡ returned args)) ⊎ ((status : ℕ) × (p ≡ exited status))
  Parsed-cases (returned args) = inl (args, refl)
  Parsed-cases (exited status) = inr (status, refl)

  -- The capital is not zero or less.
  abbrev IsFunded : Parsed num atof → Type 0
  IsFunded (returned args) = le args.capital (decimal 0 0) ≡ false
  IsFunded (exited status) = Unit

  parse_from-IsFunded :
      (rest : List Text) (args : CliArgs num atof) → IsFunded (parse_from num atof rest args)
  unfolding parse_from
  parse_from-IsFunded [] args = elim (Bool-cases (le args.capital (decimal 0 0))) [
    | inl e ↦ rw (e, IsFunded) tt
    | inr e ↦ rw (e, IsFunded) e
  ]
  parse_from-IsFunded (a ∷ []) args = elim (Option-cases (with_value num atof a [] args)) [
    | inr (next, e) ↦ rw (e, IsFunded, parse_from) tt
    | inl e ↦ elim (Parsed-cases (without_value num atof a args)) [
      | inr (status, f) ↦ rw (e, f, IsFunded, parse_from) tt
      | inl (next, f) ↦ rw (e, f, IsFunded, parse_from) (parse_from-IsFunded [] next)
    ]
  ]
  parse_from-IsFunded (a ∷ v ∷ rest) args = elim (Option-cases (with_value num atof a v args)) [
    | inr (next, e) ↦ rw (e, IsFunded, parse_from) (parse_from-IsFunded rest next)
    | inl e ↦ elim (Parsed-cases (without_value num atof a args)) [
      | inr (status, f) ↦ rw (e, f, IsFunded, parse_from) tt
      | inl (next, f) ↦ rw (e, f, IsFunded, parse_from) (parse_from-IsFunded (v ∷ rest) next)
    ]
  ]

  pub parse_args-capital :
      (argv : List Text) (args : CliArgs num atof)
      → parse_args num atof argv ≡ returned args
      → le args.capital (decimal 0 0) ≡ false
  unfolding parse_args
  parse_args-capital argv args e = subst IsFunded e (parse_from-IsFunded argv (no_args num atof))
