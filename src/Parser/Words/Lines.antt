-- ===== src/Parser/Words/Lines.antt =====
-- A printed pipeline is read back.
use clip_queue.Prelude.{
  ◌≡◌, refl, sym, ap, ◌∙◌, true, false, List, [], ◌∷◌, ◌++◌, some, none, All, length, ◌==◌,
  append_assoc, append-nil, Bool-cases, inl, inr, if◌then◌else◌, arith,
}
use clip_queue.Input.Signature.{bytes_equal}
use clip_queue.Parser.{
  Token, CommandStep, Pipeline, is_operator, tokenize, on_token, last_step, parse_from, parse_steps,
  parse, join, command_text, parts, to_string,
}
use clip_queue.Parser.Words.{
  Operator, pipe, and, or, semicolon, redirect, operator_text, IsWord, Lexemes, tokenize-join,
  IsWord-is_operator,
}

abbrev pub IsPlain : CommandStep → Type 0
IsPlain step = IsWord step.command × All IsWord step.args

abbrev pub HasOperator : CommandStep → Type 0
HasOperator step = (op : Operator) × (step.operator ≡ operator_text op)

-- Words with the five operators between the steps, and none at the end.
abbrev pub IsLine : List CommandStep → Type 0
IsLine [] = Unit
IsLine (step ∷ []) = IsPlain step × (step.operator ≡ [])
IsLine (step ∷ next ∷ steps) = IsPlain step × HasOperator step × IsLine (next ∷ steps)

words : List CommandStep → List Token
words [] = []
words (step ∷ []) = step.command ∷ step.args
words (step ∷ next ∷ steps) = (step.command ∷ step.args) ++ step.operator ∷ words (next ∷ steps)

words-cons :
    (step : CommandStep) (steps : List CommandStep)
    → (ws : List Token) × (words (step ∷ steps) ≡ step.command ∷ ws)
unfolding words
words-cons step [] = (step.args, refl)
words-cons step (next ∷ steps) = (step.args ++ step.operator ∷ words (next ∷ steps), refl)

parts-cons :
    (step : CommandStep) (steps : List CommandStep)
    → (p : Token) × (ps : List Token) × (parts (step ∷ steps) ≡ p ∷ ps)
unfolding parts
parts-cons step [] = (command_text step, [], refl)
parts-cons step (next ∷ steps) = elim (Bool-cases (length step.operator == 0)) [
  | inl e ↦ (command_text step, parts (next ∷ steps), rw e refl)
  | inr e ↦ (command_text step, step.operator ∷ parts (next ∷ steps), rw e refl)
]

join-append :
    (x : Token) (xs : List Token) (y : Token) (ys : List Token)
    → join ((x ∷ xs) ++ y ∷ ys) ≡ join (x ∷ xs) ++ 32 ∷ join (y ∷ ys)
unfolding join
join-append x [] y ys = refl
join-append x (z ∷ xs) y ys =
    ap (λ t. x ++ 32 ∷ t) (join-append z xs y ys) ∙ sym (append_assoc x (32 ∷ join (z ∷ xs)) _)

join-cons :
    (c : Token) (args : List Token)
    → (if length args == 0 then c else c ++ 32 ∷ join args) ≡ join (c ∷ args)
unfolding join
join-cons c [] = refl
join-cons c (a ∷ args) = ground arith

command_text_lem : (step : CommandStep) → command_text step ≡ join (step.command ∷ step.args)
unfolding command_text
command_text_lem step = join-cons step.command step.args

operator_nonempty : (op : Operator) → (length (operator_text op) == 0) ≡ false
operator_nonempty pipe = refl
operator_nonempty and = refl
operator_nonempty or = refl
operator_nonempty semicolon = refl
operator_nonempty redirect = refl

operator_known : (op : Operator) → is_operator (operator_text op) ≡ true
unfolding is_operator bytes_equal
operator_known pipe = refl
operator_known and = refl
operator_known or = refl
operator_known semicolon = refl
operator_known redirect = refl

join_more :
    (o : Token) (xs : List Token) (p : Token) (ps : List Token)
    → xs ≡ p ∷ ps
    → join (o ∷ xs) ≡ o ++ 32 ∷ join xs
unfolding join
join_more o xs p ps e = rw e refl

has_operator : (step : CommandStep) → HasOperator step → (length step.operator == 0) ≡ false
has_operator step (op, e) = rw e (operator_nonempty op)

parts-more :
    (step next : CommandStep) (steps : List CommandStep)
    → HasOperator step
    → parts (step ∷ next ∷ steps) ≡ command_text step ∷ step.operator ∷ parts (next ∷ steps)
unfolding parts
parts-more step next steps h = rw (has_operator step h) refl

join-head : (o p : Token) (ps : List Token) → join (o ∷ p ∷ ps) ≡ o ++ 32 ∷ join (p ∷ ps)
unfolding join
join-head o p ps = refl

parts-none : parts [] ≡ []
unfolding parts
parts-none = refl

parts-one : (step : CommandStep) → parts (step ∷ []) ≡ command_text step ∷ []
unfolding parts
parts-one step = refl

join-one : (w : Token) → join (w ∷ []) ≡ w
unfolding join
join-one w = refl

-- A printed line is its words, joined.
join-parts : (steps : List CommandStep) → IsLine steps → join (parts steps) ≡ join (words steps)
unfolding words
join-parts [] h = ap join parts-none
join-parts (step ∷ []) h =
    ap join (parts-one step) ∙ join-one (command_text step) ∙ command_text_lem step
join-parts (step ∷ next ∷ steps) (plain, h_op, h) =
    let (p, ps, parts_e) = parts-cons next steps in
    let (ws, words_e) = words-cons next steps in
    ap join (parts-more step next steps h_op)
    ∙ join-head (command_text step) step.operator (parts (next ∷ steps))
    ∙ ap (λ t. command_text step ++ 32 ∷ t)
        (join_more step.operator (parts (next ∷ steps)) p ps parts_e
          ∙ ap (λ t. step.operator ++ 32 ∷ t) (join-parts (next ∷ steps) h)
          ∙ sym (join_more step.operator (words (next ∷ steps)) next.command ws words_e))
    ∙ ap (λ t. t ++ 32 ∷ join (step.operator ∷ words (next ∷ steps))) (command_text_lem step)
    ∙ sym (join-append step.command step.args step.operator (words (next ∷ steps)))

Lexemes-words : (w : Token) (ws : List Token) → IsWord w → All IsWord ws → Lexemes (w ∷ ws)
Lexemes-words w [] h hs = h
Lexemes-words w (v ∷ ws) h (hv, hs) = (inl h, Lexemes-words v ws hv hs)

Lexemes-append :
    (w : Token) (ws : List Token) (v : Token) (vs : List Token)
    → IsWord w
    → All IsWord ws
    → Lexemes (v ∷ vs)
    → Lexemes ((w ∷ ws) ++ v ∷ vs)
Lexemes-append w [] v vs h hs more = (inl h, more)
Lexemes-append w (u ∷ ws) v vs h (hu, hs) more = (inl h, Lexemes-append u ws v vs hu hs more)

Lexemes-operator :
    (o : Token) (ws : List Token) (v : Token) (vs : List Token)
    → (op : Operator) × (o ≡ operator_text op)
    → ws ≡ v ∷ vs
    → Lexemes ws
    → Lexemes (o ∷ ws)
Lexemes-operator o ws v vs h e more = rw e (inr h, (rw e at more))

words-Lexemes : (steps : List CommandStep) → IsLine steps → Lexemes (words steps)
unfolding words
words-Lexemes [] h = tt
words-Lexemes (step ∷ []) ((command, args), e) = Lexemes-words step.command step.args command args
words-Lexemes (step ∷ next ∷ steps) ((command, args), h_op, h) =
    let (ws, words_e) = words-cons next steps in
    Lexemes-append step.command step.args step.operator (words (next ∷ steps)) command args (
      Lexemes-operator step.operator (words (next ∷ steps)) next.command ws h_op words_e
        (words-Lexemes (next ∷ steps) h))

parse_from-args :
    (args rest : List Token) (step : CommandStep)
    → All IsWord args
    → parse_from (some step) (args ++ rest)
      ≡ parse_from (some (record step { args = step.args ++ args })) rest
unfolding parse_from on_token
parse_from-args [] rest step h = rw (append-nil step.args) refl
parse_from-args (a ∷ args) rest step (h, hs) = rw (IsWord-is_operator a h) (
    parse_from-args args rest (record step { args = step.args ++ a ∷ [] }) hs
    ∙ ap (λ new_args. parse_from (some (record step { args = new_args })) rest)
        (append_assoc step.args (a ∷ []) args))

abbrev in_hand : CommandStep → CommandStep
in_hand step = record { command = step.command; args = step.args; operator = [] }

parse_from-start :
    (step : CommandStep) (rest : List Token)
    → IsPlain step
    → parse_from none ((step.command ∷ step.args) ++ rest) ≡ parse_from (some (in_hand step)) rest
unfolding parse_from on_token
parse_from-start step rest (command, args) = rw (IsWord-is_operator step.command command) (
    parse_from-args step.args rest (record { command = step.command; args = []; operator = [] })
      args)

parse_from-last :
    (step : CommandStep) → step.operator ≡ [] → parse_from (some (in_hand step)) [] ≡ step ∷ []
unfolding parse_from last_step
parse_from-last step e =
    ap (λ o. record { command = step.command; args = step.args; operator = o } ∷ []) (sym e)

parse_from-operator :
    (step : CommandStep) (rest : List Token)
    → HasOperator step
    → parse_from (some (in_hand step)) (step.operator ∷ rest) ≡ step ∷ parse_from none rest
unfolding parse_from on_token
parse_from-operator step rest (op, e) =
    let known : is_operator step.operator ≡ true = rw e (operator_known op) in rw known refl

parse_from-nothing : parse_from none [] ≡ []
unfolding parse_from last_step
parse_from-nothing = refl

parse_from-words : (steps : List CommandStep) → IsLine steps → parse_from none (words steps) ≡ steps
unfolding words
parse_from-words [] h = parse_from-nothing
parse_from-words (step ∷ []) (plain, e) =
    ap (λ ws. parse_from none (step.command ∷ ws)) (sym (append-nil step.args))
    ∙ parse_from-start step [] plain
    ∙ parse_from-last step e
parse_from-words (step ∷ next ∷ steps) (plain, h_op, h) =
    parse_from-start step (step.operator ∷ words (next ∷ steps)) plain
    ∙ parse_from-operator step (words (next ∷ steps)) h_op
    ∙ ap (◌∷◌ step) (parse_from-words (next ∷ steps) h)

-- A pipeline of words without quotes, blanks and the bytes of operators, with an operator of the
-- five behind every step but the last, is parsed back from its text.
pub parse-to_string :
    (p : Pipeline)
    → IsLine p.steps
    → parse (to_string p) ≡ record { steps = p.steps; original = to_string p }
unfolding parse to_string parse_steps
parse-to_string p h =
    ap (λ steps. record { steps = steps; original = to_string p })
      (ap (λ t. parse_from none (tokenize t)) (join-parts p.steps h)
        ∙ ap (parse_from none) (tokenize-join (words p.steps) (words-Lexemes p.steps h))
        ∙ parse_from-words p.steps h)
