-- ===== src/Lexer/Next.antt =====
-- compiler/lexer.cpp: `Lexer::next` and `Lexer::tokenize`.
use mylamina.Base.{ℕ, zero, suc, ◌+◌, Bool, true, false, ◌||◌, List, [], ◌∷◌, ◌++◌}
use mylamina.Base.{Option, none, some, ◌==◌, if◌then◌else◌, length, Text, get_last?}
use mylamina.Lexer.{
  TokenType, end_of_file, oper_plus, oper_minus, oper_mul, oper_div, oper_mod, oper_pow, assign,
  colon, col_colon, comma, not_tok, lparen, rparen, lbrack, rbrack, lbrace, rbrace, eq, ne, lt, gt,
  le, ge, pipe, or_tok, and_tok, num_literal, unknown, dot, Token, Pos, step_pos, is_digit,
  is_alpha, Lexed, lexed, behind, skip_space, skip_comment, read_string, read_number, read_ident,
  word_type,
}

-- The operators of one character.
unfoldable pub single : ℕ → Option (TokenType × Text)
single c =
    if c == b'+'
    then some (oper_plus, b'+' ∷ [])
    else if c == b'-'
    then some (oper_minus, b'-' ∷ [])
    else if c == b'*'
    then some (oper_mul, b'*' ∷ [])
    else if c == b'/'
    then some (oper_div, b'/' ∷ [])
    else if c == b'%'
    then some (oper_mod, b'%' ∷ [])
    else if c == b'^'
    then some (oper_pow, b'^' ∷ [])
    else if c == b'('
    then some (lparen, b'(' ∷ [])
    else if c == b')'
    then some (rparen, b')' ∷ [])
    else if c == b'{'
    then some (lbrace, b'{' ∷ [])
    else if c == b'}'
    then some (rbrace, b'}' ∷ [])
    else if c == b'['
    then some (lbrack, b'[' ∷ [])
    else if c == b']'
    then some (rbrack, b']' ∷ [])
    else if c == b','
    then some (comma, b',' ∷ b' ' ∷ [])
    else if c == b'.'
    then some (dot, b'.' ∷ [])
    else none

-- An operator that may have a second character `d`: its token with it, and its token without.
unfoldable pub double : ℕ → Option (ℕ × TokenType × TokenType)
double c =
    if c == b'='
    then some (b'=', eq, assign)
    else if c == b'>'
    then some (b'=', ge, gt)
    else if c == b'<'
    then some (b'=', le, lt)
    else if c == b':'
    then some (b':', col_colon, colon)
    else if c == b'!'
    then some (b'=', ne, not_tok)
    else none

-- `advance(); if (content[pos] == d) { advance(); … }`
unfoldable pub lex_double : ℕ → ℕ → TokenType → TokenType → List ℕ → Pos → Lexed
lex_double c d both one [] p = behind one (c ∷ []) [] p
lex_double c d both one (e ∷ cs) p =
    if e == d then behind both (c ∷ d ∷ []) cs (step_pos cs p) else behind one (c ∷ []) (e ∷ cs) p

-- `|` and `&` behind the first character; alone they are unknown, with the next character as text.
unfoldable pub lex_bar : List ℕ → Pos → Lexed
lex_bar [] p = behind unknown (0 ∷ []) [] p
lex_bar (e ∷ cs) p =
    if e == b'>'
    then behind pipe (b'|' ∷ b'>' ∷ []) cs (step_pos cs p)
    else if e == b'|'
    then behind or_tok (b'|' ∷ b'|' ∷ []) cs (step_pos cs p)
    else behind unknown (e ∷ []) (e ∷ cs) p

unfoldable pub lex_amp : List ℕ → Pos → Lexed
lex_amp [] p = behind unknown (0 ∷ []) [] p
lex_amp (e ∷ cs) p =
    if e == b'&'
    then behind and_tok (b'&' ∷ b'&' ∷ []) cs (step_pos cs p)
    else behind unknown (e ∷ []) (e ∷ cs) p

-- `"`: a string that ends at once is unknown.
unfoldable pub lex_string : List ℕ → Pos → Lexed
lex_string [] p = behind unknown [] [] p
lex_string (e ∷ cs) p = read_string false (e ∷ cs) p []

unfoldable pub lex_number : ℕ → List ℕ → Pos → Lexed
lex_number c cs p =
    let (num, rest, q) = read_number (c ∷ cs) p [] in lexed num_literal num p.line p.col rest q

unfoldable pub lex_word : ℕ → List ℕ → Pos → Lexed
lex_word c cs p =
    let (id, rest, q) = read_ident (c ∷ cs) p [] in lexed (word_type id) id p.line p.col rest q

unfoldable pub lex_other : ℕ → List ℕ → Pos → Option Lexed
lex_other c cs p =
    if c == b'#'
    then skip_comment (c ∷ cs) p
    else if c == b'"'
    then some (lex_string cs (step_pos cs p))
    else if c == b'|'
    then some (lex_bar cs (step_pos cs p))
    else if c == b'&'
    then some (lex_amp cs (step_pos cs p))
    else if is_digit c
    then some (lex_number c cs p)
    else if is_alpha c || c == b'_'
    then some (lex_word c cs p)
    else some (lexed unknown (c ∷ []) p.line p.col cs (step_pos cs p))

unfoldable pub lex_rest :
    Option (TokenType × Text) → Option (ℕ × TokenType × TokenType) → ℕ → List ℕ → Pos → Option Lexed
lex_rest (some (t, s)) d c cs p = some (behind t s cs (step_pos cs p))
lex_rest none (some (d, both, one)) c cs p = some (lex_double c d both one cs (step_pos cs p))
lex_rest none none c cs p = lex_other c cs p

-- The `switch` on the first character that is no space.
unfoldable pub lex_token : List ℕ → Pos → Option Lexed
unfolding lex_rest single double lex_double lex_other lex_string lex_bar lex_amp lex_number lex_word
lex_token [] p = some (lexed end_of_file [] p.line p.col [] p)
lex_token (c ∷ cs) p = lex_rest (single c) (double c) c cs p

-- `Lexer::next`
unfoldable pub next : List ℕ → Pos → Option Lexed
next cs p = let (cs', p') = skip_space cs p in lex_token cs' p'

-- What the loop of `tokenize` may come to.
pub data Tokens : Type 0 where
  done : List Token → Pos → Tokens
  out_of_bounds : Tokens
  out_of_fuel : Tokens

-- `while (pos < content.size()) tokens.push_back(next());`
unfoldable pub tokens_from : ℕ → List ℕ → Pos → List Token → Tokens
tokens_from fuel [] p tokens = done tokens p
tokens_from zero (c ∷ cs) p tokens = out_of_fuel
tokens_from (suc fuel) (c ∷ cs) p tokens = elim (next (c ∷ cs) p) [
  | none ↦ out_of_bounds
  | some l ↦ tokens_from fuel l.rest l.pos (tokens ++ (l.token ∷ []))
]

-- Whether the token list ends in END_OF_FILE.
unfoldable pub ends : Option Token → Bool
ends none = false
ends (some t) = elim t.type [ end_of_file ↦ true | _ ↦ false ]

unfoldable pub add_end : Tokens → Tokens
add_end (done tokens p) =
    if ends (get_last? tokens)
    then done tokens p
    else done
        (tokens ++ (record { type = end_of_file; text = []; line = p.line; col = p.col } ∷ [])) p
add_end r = r

unfoldable pub is_unknown : TokenType → Bool
is_unknown unknown = true
is_unknown _ = false

-- Whether `error(tokens, …)` gives a text: it has a part for each line with an unknown token.
unfoldable pub has_unknown : List Token → Bool
unfolding is_unknown
has_unknown [] = false
has_unknown (t ∷ ts) = is_unknown t.type || has_unknown ts

-- The result of `tokenize` and `has_err`: with an error no token is returned.
unfoldable pub reject : Tokens → Tokens × Bool
reject (done tokens p) = if has_unknown tokens then (done [] p, true) else (done tokens p, false)
reject r = (r, false)

unfoldable pub newlines : List ℕ → ℕ
newlines [] = 0
newlines (c ∷ cs) = if c == b'\n' then suc (newlines cs) else newlines cs

-- `line` is moved on by the number of lines of the text before it is read.
unfoldable pub start_line : List ℕ → ℕ → ℕ
start_line [] line = line
start_line (c ∷ cs) line = line + (newlines (c ∷ cs) + 1)

-- `Lexer::tokenize`, on a lexer that stands at `line`.
unfoldable pub tokenize : List ℕ → ℕ → Tokens × Bool
unfolding add_end ends reject newlines start_line
tokenize code line =
    reject (
      add_end (tokens_from (length code) code (record { line = start_line code line; col = 1 }) []))
