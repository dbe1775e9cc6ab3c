-- ===== src/Parser.antt =====
-- internal/parser/parser.go: command lines as pipelines. A string is the list of its bytes.
pub mod Steps
pub mod Words
use clip_queue.Prelude.{
  ℕ, Bool, true, false, not, ◌&&◌, ◌||◌, List, [], ◌∷◌, ◌++◌, Option, none, some, if◌then◌else◌,
  ◌==◌, length,
}
use clip_queue.Input.Signature.{bytes_equal}

abbrev pub Token : Type 0
Token = List ℕ

-- An empty operator is the empty string.
pub record CommandStep : Type 0 where
  pub command : Token
  pub args : List Token
  pub operator : Token

pub record Pipeline : Type 0 where
  pub steps : List CommandStep
  pub original : List ℕ

-- `"|"`, `"&&"`, `"||"`, `";"` and `">"`
unfoldable pub is_operator : Token → Bool
is_operator token =
    bytes_equal token (124 ∷ [])
    || bytes_equal token (38 ∷ 38 ∷ [])
    || bytes_equal token (124 ∷ 124 ∷ [])
    || bytes_equal token (59 ∷ [])
    || bytes_equal token (62 ∷ [])

-- The variables of the loop of `tokenize`; `quote` is `quoteChar` while `inQuotes` holds.
pub record Lexer : Type 0 where
  pub tokens : List Token
  pub current : Token
  pub quote : Option ℕ

-- `if current.Len() > 0 { … }`
unfoldable pub flush : Lexer → Lexer
flush lexer =
    if length lexer.current == 0
    then lexer
    else record lexer { tokens = lexer.tokens ++ lexer.current ∷ []; current = [] }

unfoldable pub is_quote : ℕ → Bool
is_quote ch = ch == 34 || ch == 39

unfoldable pub is_blank : ℕ → Bool
is_blank ch = ch == 32 || ch == 9

unfoldable pub is_special : ℕ → Bool
is_special ch = ch == 124 || ch == 38 || ch == 59 || ch == 62

-- `i+1 < len(input) && input[i+1] == ch`
unfoldable pub repeats : ℕ → List ℕ → Bool
repeats ch [] = false
repeats ch (next ∷ rest) = next == ch

-- Whether an operator takes the next byte too, which only `&` and `|` do.
unfoldable pub doubles : ℕ → List ℕ → Bool
unfolding repeats
doubles ch rest = (ch == 38 || ch == 124) && repeats ch rest

unfoldable pub put : ℕ → Lexer → Lexer
put ch lexer = record lexer { current = lexer.current ++ ch ∷ [] }

-- One turn of the loop outside quotes: the variables, and whether it skips the next byte.
unfoldable pub lex_plain : ℕ → List ℕ → Lexer → Lexer × Bool
unfolding flush put is_quote is_blank is_special doubles
lex_plain ch rest lexer =
    if is_quote ch
    then (record lexer { quote = some ch }, false)
    else if is_blank ch
    then (flush lexer, false)
    else if is_special ch
    then (let flushed = flush lexer in
        (
          record flushed {
            tokens = flushed.tokens ++ (if doubles ch rest then ch ∷ ch ∷ [] else ch ∷ []) ∷ [];
          },
          doubles ch rest,
        ))
    else (put ch lexer, false)

-- One turn of the loop.
unfoldable pub lex : ℕ → List ℕ → Lexer → Lexer × Bool
unfolding lex_plain put
lex ch rest lexer = elim lexer.quote [
  | none ↦ lex_plain ch rest lexer
  | some q ↦ if ch == q then (record lexer { quote = none }, false) else (put ch lexer, false)
]

-- The loop; the Boolean says that the byte was taken together with the one before.
unfoldable pub lex_all : List ℕ → Bool → Lexer → Lexer
lex_all [] skip lexer = lexer
lex_all (ch ∷ rest) true lexer = lex_all rest false lexer
lex_all (ch ∷ rest) false lexer = let (after, skip) = lex ch rest lexer in lex_all rest skip after

abbrev pub new_lexer : Lexer
new_lexer = record { tokens = []; current = []; quote = none }

unfoldable pub tokenize : List ℕ → List Token
unfolding lex_all flush
tokenize input = (flush (lex_all input false new_lexer)).tokens

-- What a token does to the step in hand: the steps that it ends, and the step that is in hand then.
unfoldable pub on_token : Token → Option CommandStep → List CommandStep × Option CommandStep
on_token token none =
    if is_operator token
    then ([], none)
    else ([], some (record { command = token; args = []; operator = [] }))
on_token token (some step) =
    if is_operator token
    then (record step { operator = token } ∷ [], none)
    else ([], some (record step { args = step.args ++ token ∷ [] }))

unfoldable pub last_step : Option CommandStep → List CommandStep
last_step none = []
last_step (some step) = step ∷ []

unfoldable pub parse_from : Option CommandStep → List Token → List CommandStep
unfolding last_step
parse_from step [] = last_step step
parse_from step (token ∷ tokens) =
    let (done, next) = on_token token step in done ++ parse_from next tokens

unfoldable pub parse_steps : List Token → List CommandStep
unfolding parse_from
parse_steps tokens = parse_from none tokens

-- The error of `Parse` is always nil.
unfoldable pub parse : List ℕ → Pipeline
unfolding tokenize parse_steps
parse input = record { steps = parse_steps (tokenize input); original = input }

-- `strings.Join(parts, " ")`
unfoldable pub join : List Token → List ℕ
join [] = []
join (part ∷ []) = part
join (part ∷ next ∷ parts) = part ++ 32 ∷ join (next ∷ parts)

-- The command with its arguments.
unfoldable pub command_text : CommandStep → List ℕ
unfolding join
command_text step =
    if length step.args == 0 then step.command else step.command ++ 32 ∷ join step.args

-- The parts of the steps; the last step has no operator.
unfoldable pub parts : List CommandStep → List Token
unfolding command_text
parts [] = []
parts (step ∷ []) = command_text step ∷ []
parts (step ∷ next ∷ steps) =
    if length step.operator == 0
    then command_text step ∷ parts (next ∷ steps)
    else command_text step ∷ step.operator ∷ parts (next ∷ steps)

-- `Pipeline.String`
unfoldable pub to_string : Pipeline → List ℕ
unfolding parts join
to_string p = join (parts p.steps)
