-- ===== src/Parser/Steps.antt =====
-- The steps that the parser makes of any tokens.
use clip_queue.Prelude.{
  ℕ, ◌≡◌, true, false, List, [], ◌∷◌, ◌++◌, Option, none, some, All, All-append, Bool-cases, inl,
  inr,
}
use clip_queue.Parser.{
  CommandStep, Token, is_operator, on_token, last_step, parse_from, parse_steps, parse, tokenize,
}

-- Neither the command nor an argument is an operator.
pub record IsStep (step : CommandStep) : Type 0 where
  pub command_plain : is_operator step.command ≡ false
  pub args_plain : All (λ arg. is_operator arg ≡ false) step.args

-- Every step but the last ends with an operator.
abbrev pub IsChain : List CommandStep → Type 0
IsChain [] = Unit
IsChain (step ∷ []) = IsStep step
IsChain (step ∷ next ∷ steps) =
    IsStep step × (is_operator step.operator ≡ true) × IsChain (next ∷ steps)

abbrev InHand : Option CommandStep → Type 0
InHand none = Unit
InHand (some step) = IsStep step

cons-IsChain :
    (step : CommandStep) (steps : List CommandStep)
    → IsStep step
    → is_operator step.operator ≡ true
    → IsChain steps
    → IsChain (step ∷ steps)
cons-IsChain step [] h o c = h
cons-IsChain step (next ∷ steps) h o c = (h, o, c)

parse_from-IsChain :
    (step : Option CommandStep) (tokens : List Token)
    → InHand step
    → IsChain (parse_from step tokens)
unfolding parse_from last_step on_token
parse_from-IsChain none [] h = tt
parse_from-IsChain (some step) [] h = h
parse_from-IsChain none (token ∷ tokens) h = elim (Bool-cases (is_operator token)) [
  | inl op ↦ rw op (parse_from-IsChain none tokens tt)
  | inr plain ↦ rw plain (
      parse_from-IsChain (some (record { command = token; args = []; operator = [] })) tokens
        (record { command_plain = plain; args_plain = tt }))
]
parse_from-IsChain (some step) (token ∷ tokens) h = elim (Bool-cases (is_operator token)) [
  | inl op ↦ rw op (
      cons-IsChain (record step { operator = token }) (parse_from none tokens)
        (record { command_plain = h.command_plain; args_plain = h.args_plain }) op
        (parse_from-IsChain none tokens tt))
  | inr plain ↦ rw plain (
      parse_from-IsChain (some (record step { args = step.args ++ token ∷ [] })) tokens (record {
        command_plain = h.command_plain;
        args_plain = All-append _ step.args (token ∷ []) h.args_plain (plain, tt);
      }))
]

-- Whatever the input, no command and no argument of the parsed steps is an operator, and every step
-- but the last ends with an operator.
pub parse-IsChain : (input : List ℕ) → IsChain (parse input).steps
unfolding parse parse_steps
parse-IsChain input = parse_from-IsChain none (tokenize input) tt
