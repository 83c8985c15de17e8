-- ===== src/Lexer.antt =====
-- compiler/lexer.hpp and lexer.cpp: from characters to tokens.
-- The lexer's `content` and `pos` are the characters that are left; `line` and `col` are a `Pos`.
-- `content[pos]` at the end is the NUL of a `std::string`. An `advance` at the end would read
-- behind it, which is undefined: `none`. The character classes are those of the "C" locale.
pub mod Next
pub mod Progress
pub mod Literals
pub mod Report
use mylamina.Base.{ℕ, zero, suc, ◌+◌, ◌-◌, ◌%◌, ◌^◌, Bool, true, false, ◌&&◌, ◌||◌, List, []}
use mylamina.Base.{
  ◌∷◌, ◌++◌, Option, none, some, ◌==◌, leb, if◌then◌else◌, length, Text, lookup, ◌>>=◌,
}

pub data TokenType : Type 0 where
  end_of_file : TokenType
  oper_plus oper_minus oper_mul oper_div oper_mod oper_pow : TokenType
  assign colon col_colon comma not_tok : TokenType
  lparen rparen lbrack rbrack lbrace rbrace : TokenType
  eq ne lt gt le ge pipe or_tok and_tok : TokenType
  num_literal string_literal true_literal false_literal identifier : TokenType
  kw_func kw_return unknown kw_if kw_else kw_let kw_vmc kw_module kw_use dot : TokenType
  kw_loop kw_break kw_continue comment : TokenType

pub record Token : Type 0 where
  pub type : TokenType
  pub text : Text
  pub line : ℕ
  pub col : ℕ

pub record Pos : Type 0 where
  pub line : ℕ
  pub col : ℕ

-- `content[pos]`
abbrev pub peek : List ℕ → ℕ
peek [] = 0
peek (c ∷ cs) = c

-- `advance()` onto the characters `cs`: a line is counted on its newline character.
abbrev pub step_pos : List ℕ → Pos → Pos
step_pos cs p =
    if peek cs == b'\n'
    then record { line = p.line + 1; col = 1 }
    else record { line = p.line; col = p.col + 1 }

abbrev pub is_space : ℕ → Bool
is_space c = c == b' ' || (leb 9 c && leb c 13)

abbrev pub is_digit : ℕ → Bool
is_digit c = leb b'0' c && leb c b'9'

abbrev pub is_alpha : ℕ → Bool
is_alpha c = (leb b'a' c && leb c b'z') || (leb b'A' c && leb c b'Z')

abbrev pub is_ident : ℕ → Bool
is_ident c = is_alpha c || is_digit c || c == b'_'

-- What `next` gives: the token and where it leaves the lexer.
pub record Lexed : Type 0 where
  pub token : Token
  pub rest : List ℕ
  pub pos : Pos

-- `size_t` subtraction
abbrev pub sub64 : ℕ → ℕ → ℕ
sub64 a b = (a + 2 ^ 64 - b) % 2 ^ 64

abbrev pub lexed : TokenType → Text → ℕ → ℕ → List ℕ → Pos → Lexed
lexed t s line col cs p = record {
  token = record { type = t; text = s; line = line; col = col };
  rest = cs;
  pos = p;
}

-- `return {type, text, line, col - 1}`
abbrev pub behind : TokenType → Text → List ℕ → Pos → Lexed
behind t s cs p = lexed t s p.line (p.col - 1) cs p

-- The first loop of `next`.
unfoldable pub skip_space : List ℕ → Pos → List ℕ × Pos
skip_space [] p = ([], p)
skip_space (c ∷ cs) p =
    let rest = skip_space cs (step_pos cs p) in if is_space c then rest else (c ∷ cs, p)

-- A comment up to its newline, which is skipped too. At the end of the input it is not closed.
unfoldable pub skip_comment : List ℕ → Pos → Option Lexed
skip_comment [] p = none
skip_comment (c ∷ cs) p =
    let rest = skip_comment cs (step_pos cs p) in
    let q = step_pos cs p in if c == b'\n' then some (lexed comment [] q.line q.col cs q) else rest

-- The character that an escape stands for.
unfoldable pub escape : ℕ → ℕ
escape c =
    if c == b'n'
    then 10
    else if c == b't'
    then 9
    else if c == b'r'
    then 13
    else if c == b'b'
    then 8
    else if c == b'f'
    then 12
    else if c == b'v'
    then 11
    else if c == b'0'
    then 0
    else c

-- The loop of a string, behind the opening quote; the flag says that a backslash came before.
unfoldable pub read_string : Bool → List ℕ → Pos → Text → Lexed
read_string true [] p str = behind unknown [] [] p
read_string false [] p str = lexed unknown str p.line (sub64 p.col (length str + 1)) [] p
read_string true (c ∷ cs) p str = read_string false cs (step_pos cs p) (str ++ (escape c ∷ []))
read_string false (c ∷ cs) p str =
    let q = step_pos cs p in
    let escaped = read_string true cs q str in
    let plain = read_string false cs q (str ++ (c ∷ [])) in
    if c == b'"'
    then lexed string_literal str q.line (sub64 q.col (length str + 1)) cs q
    else if c == b'\\'
    then escaped
    else plain

-- The digits of a number, without the `_` between them.
unfoldable pub read_number : List ℕ → Pos → Text → Text × List ℕ × Pos
read_number [] p num = (num, [], p)
read_number (c ∷ cs) p num =
    let q = step_pos cs p in
    let skip = read_number cs q num in
    let keep = read_number cs q (num ++ (c ∷ [])) in
    if c == b'_' then skip else if is_digit c then keep else (num, c ∷ cs, p)

unfoldable pub read_ident : List ℕ → Pos → Text → Text × List ℕ × Pos
read_ident [] p id = (id, [], p)
read_ident (c ∷ cs) p id =
    let keep = read_ident cs (step_pos cs p) (id ++ (c ∷ [])) in
    if is_ident c then keep else (id, c ∷ cs, p)

abbrev pub keywords : List (Text × TokenType)
keywords =
    (b'f' ∷ b'u' ∷ b'n' ∷ b'c' ∷ [], kw_func)
    ∷ (b'r' ∷ b'e' ∷ b't' ∷ b'u' ∷ b'r' ∷ b'n' ∷ [], kw_return)
    ∷ (b'i' ∷ b'f' ∷ [], kw_if)
    ∷ (b'e' ∷ b'l' ∷ b's' ∷ b'e' ∷ [], kw_else)
    ∷ (b'l' ∷ b'e' ∷ b't' ∷ [], kw_let)
    ∷ (b'_' ∷ b'_' ∷ b'V' ∷ b'M' ∷ b'C' ∷ [], kw_vmc)
    ∷ (b'm' ∷ b'o' ∷ b'd' ∷ b'u' ∷ b'l' ∷ b'e' ∷ [], kw_module)
    ∷ (b'u' ∷ b's' ∷ b'e' ∷ [], kw_use)
    ∷ (b'l' ∷ b'o' ∷ b'o' ∷ b'p' ∷ [], kw_loop)
    ∷ (b'b' ∷ b'r' ∷ b'e' ∷ b'a' ∷ b'k' ∷ [], kw_break)
    ∷ (b'c' ∷ b'o' ∷ b'n' ∷ b't' ∷ b'i' ∷ b'n' ∷ b'u' ∷ b'e' ∷ [], kw_continue)
    ∷ []

unfoldable pub keyword_or_identifier : Option TokenType → TokenType
keyword_or_identifier none = identifier
keyword_or_identifier (some t) = t

-- The type of a word: its keyword, or an identifier.
unfoldable pub word_type : Text → TokenType
unfolding keyword_or_identifier lookup
word_type s = keyword_or_identifier (lookup s keywords)
