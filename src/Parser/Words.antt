-- ===== src/Parser/Words.antt =====
-- A line of words and operators is read back from its text.
pub mod Lines
use clip_queue.Prelude.{
  ℕ, ◌≡◌, refl, sym, ap, ◌∙◌, Bool, true, false, not, ◌&&◌, List, [], ◌∷◌, ◌++◌, none, All, length,
  ◌==◌, append_assoc, append-nil, ◌⊎◌, inl, inr, arith, if◌then◌else◌,
}
use clip_queue.Input.Signature.{bytes_equal}
use clip_queue.Parser.{
  Token, Lexer, is_operator, is_quote, is_blank, is_special, doubles, repeats, flush, put, lex,
  lex_plain, lex_all, new_lexer, tokenize, join,
}

-- Neither a quote, nor a blank, nor the start of an operator.
unfoldable pub is_plain : ℕ → Bool
is_plain ch = not (is_quote ch) && not (is_blank ch) && not (is_special ch)

pub data Operator : Type 0 where
  pipe and or semicolon redirect : Operator

abbrev pub operator_text : Operator → Token
operator_text pipe = 124 ∷ []
operator_text and = 38 ∷ 38 ∷ []
operator_text or = 124 ∷ 124 ∷ []
operator_text semicolon = 59 ∷ []
operator_text redirect = 62 ∷ []

-- A word has a byte, and its bytes are plain.
abbrev pub IsWord : Token → Type 0
IsWord w = ((length w == 0) ≡ false) × All (λ ch. is_plain ch ≡ true) w

abbrev pub IsLexeme : Token → Type 0
IsLexeme w = IsWord w ⊎ ((op : Operator) × (w ≡ operator_text op))

abbrev at_rest : List Token → Token → Lexer
at_rest ts c = record { tokens = ts; current = c; quote = none }

lex-put :
    (ch : ℕ) (rest : List ℕ) (ts : List Token) (c : Token)
    → is_plain ch ≡ true
    → lex ch rest (at_rest ts c) ≡ (at_rest ts (c ++ ch ∷ []), false)
unfolding lex lex_plain put is_plain
lex-put ch rest ts c h = ground arith

lex_all-plain :
    (w rest : List ℕ) (ts : List Token) (c : Token)
    → All (λ ch. is_plain ch ≡ true) w
    → lex_all (w ++ rest) false (at_rest ts c) ≡ lex_all rest false (at_rest ts (c ++ w))
unfolding lex_all
lex_all-plain [] rest ts c h = rw (append-nil c) refl
lex_all-plain (ch ∷ w) rest ts c (p, h) =
    rw (lex_all, lex-put ch (w ++ rest) ts c p)
      (lex_all-plain w rest ts (c ++ ch ∷ []) h
        ∙ ap (λ d. lex_all rest false (at_rest ts d)) (append_assoc c (ch ∷ []) w))

lex_all-blank :
    (rest : List ℕ) (ts : List Token) (c : Token)
    → (length c == 0) ≡ false
    → lex_all (32 ∷ rest) false (at_rest ts c) ≡ lex_all rest false (at_rest (ts ++ c ∷ []) [])
unfolding lex_all lex lex_plain flush is_quote is_blank
lex_all-blank rest ts c h = rw h refl

lex_all-operator :
    (op : Operator) (rest : List ℕ) (ts : List Token)
    → lex_all (operator_text op ++ 32 ∷ rest) false (at_rest ts [])
      ≡ lex_all rest false (at_rest (ts ++ operator_text op ∷ []) [])
unfolding lex_all lex lex_plain flush is_quote is_blank is_special doubles repeats
lex_all-operator pipe rest ts = refl
lex_all-operator and rest ts = refl
lex_all-operator or rest ts = refl
lex_all-operator semicolon rest ts = refl
lex_all-operator redirect rest ts = refl

lex_all-lexeme :
    (w rest : List ℕ) (ts : List Token)
    → IsLexeme w
    → lex_all (w ++ 32 ∷ rest) false (at_rest ts [])
      ≡ lex_all rest false (at_rest (ts ++ w ∷ []) [])
lex_all-lexeme w rest ts (inl (some_byte, plain)) =
    lex_all-plain w (32 ∷ rest) ts [] plain ∙ lex_all-blank rest ts w some_byte
lex_all-lexeme w rest ts (inr (op, e)) = rw e (lex_all-operator op rest ts)

-- Lexemes of which the last one is a word.
abbrev pub Lexemes : List Token → Type 0
Lexemes [] = Unit
Lexemes (w ∷ []) = IsWord w
Lexemes (w ∷ v ∷ ws) = IsLexeme w × Lexemes (v ∷ ws)

flush-word :
    (ts : List Token) (w : Token)
    → (length w == 0) ≡ false
    → (flush (at_rest ts w)).tokens ≡ ts ++ w ∷ []
unfolding flush
flush-word ts w h = rw h refl

lex_all-nil : (lexer : Lexer) → lex_all [] false lexer ≡ lexer
unfolding lex_all
lex_all-nil lexer = refl

flush-none : (ts : List Token) → (flush (at_rest ts [])).tokens ≡ ts ++ []
unfolding flush
flush-none ts = sym (append-nil ts)

lex_all-join :
    (ws ts : List Token)
    → Lexemes ws
    → (flush (lex_all (join ws) false (at_rest ts []))).tokens ≡ ts ++ ws
unfolding join
lex_all-join [] ts h = ap (λ l. (flush l).tokens) (lex_all-nil (at_rest ts [])) ∙ flush-none ts
lex_all-join (w ∷ []) ts (some_byte, plain) =
    ap (λ v. (flush (lex_all v false (at_rest ts []))).tokens) (sym (append-nil w))
    ∙ ap (λ l. (flush l).tokens) (lex_all-plain w [] ts [] plain ∙ lex_all-nil (at_rest ts w))
    ∙ flush-word ts w some_byte
lex_all-join (w ∷ v ∷ ws) ts (lexeme, h) =
    ap (λ l. (flush l).tokens) (lex_all-lexeme w (join (v ∷ ws)) ts lexeme)
    ∙ lex_all-join (v ∷ ws) (ts ++ w ∷ []) h
    ∙ append_assoc ts (w ∷ []) (v ∷ ws)

pub tokenize-join : (ws : List Token) → Lexemes ws → tokenize (join ws) ≡ ws
unfolding tokenize
tokenize-join ws h = lex_all-join ws [] h

pub IsWord-is_operator : (w : Token) → IsWord w → is_operator w ≡ false
unfolding is_operator is_plain is_special bytes_equal
IsWord-is_operator [] (some_byte, plain) = ground arith
IsWord-is_operator (ch ∷ w) (some_byte, (plain, rest)) = ground arith
