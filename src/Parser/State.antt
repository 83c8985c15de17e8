-- ===== src/Parser/State.antt =====
-- compiler/parser.hpp and parser.cpp: the members of `Parser`, its moves and its errors.
-- `error` throws: `thrown` is a `ParserError` on its way, with the state that the members have by
-- then. `advance` behind the end throws a `std::runtime_error`, which nothing catches: `stopped`.
-- A null pointer that is followed is `undefined`. The `static` flags of `parse` stand in the state.
use mylamina.Base.{
  ℕ, zero, suc, ◌+◌, ◌-◌, Bool, true, false, List, [], ◌∷◌, ◌++◌, Option, none, some,
}
use mylamina.Base.{◌==◌, leb, if◌then◌else◌, length, get_or, get_elem?, get_last?, Text}
use mylamina.Lexer.{
  TokenType, end_of_file, oper_plus, oper_minus, oper_mul, oper_div, oper_mod, oper_pow, assign,
  colon, col_colon, comma, not_tok, lparen, rparen, lbrack, rbrack, lbrace, rbrace, eq, ne, lt, gt,
  le, ge, pipe, or_tok, and_tok, num_literal, string_literal, true_literal, false_literal,
  identifier, kw_func, kw_return, unknown, kw_if, kw_else, kw_let, kw_vmc, kw_module, kw_use, dot,
  kw_loop, kw_break, kw_continue, comment, Token,
}

-- `static_cast<int>(t)`
abbrev pub type_number : TokenType → ℕ
type_number end_of_file = 0
type_number oper_plus = 1
type_number oper_minus = 2
type_number oper_mul = 3
type_number oper_div = 4
type_number oper_mod = 5
type_number oper_pow = 6
type_number assign = 7
type_number colon = 8
type_number col_colon = 9
type_number comma = 10
type_number not_tok = 11
type_number lparen = 12
type_number rparen = 13
type_number lbrack = 14
type_number rbrack = 15
type_number lbrace = 16
type_number rbrace = 17
type_number eq = 18
type_number ne = 19
type_number lt = 20
type_number gt = 21
type_number le = 22
type_number ge = 23
type_number pipe = 24
type_number or_tok = 25
type_number and_tok = 26
type_number num_literal = 27
type_number string_literal = 28
type_number true_literal = 29
type_number false_literal = 30
type_number identifier = 31
type_number kw_func = 32
type_number kw_return = 33
type_number unknown = 34
type_number kw_if = 35
type_number kw_else = 36
type_number kw_let = 37
type_number kw_vmc = 38
type_number kw_module = 39
type_number kw_use = 40
type_number dot = 41
type_number kw_loop = 42
type_number kw_break = 43
type_number kw_continue = 44
type_number comment = 45

abbrev pub same_type : TokenType → TokenType → Bool
same_type t u = type_number t == type_number u

-- The message of a `ParserError`.
pub data ParseError : Type 0 where
  expected_lparen_got unknown_token : Text → ParseError
  missing_comma_or_rparen missing_closing : ParseError
  expected_lbrace expected_rbrace expected_lparen expected_rparen : ParseError
  expected_operand expected_call expected_identifier expected_assignment : ParseError
  expected_return expected_break expected_continue only_declarations : ParseError
  expected_comma expected_parameter expected_string expected_number : ParseError

pub record ParserState : Type 0 where
  pub tokens : List Token
  pub back : Token
  pub pos : ℕ
  pub has_err : Bool
  pub in_module : Bool
  pub in_func : Bool
  pub in_loop : Bool
  -- what `print_error` has written: the error, and the line and column of `cur()`
  pub messages : List (ParseError × ℕ × ℕ)

-- `Parser(tokens, code, filename)`; `back()` of an empty vector is undefined. The flags are those
-- that the parsers before have left.
unfoldable pub new_parser : Bool → Bool → List Token → Option ParserState
new_parser in_func in_loop tokens = elim (get_last? tokens) [
  | none ↦ none
  | some t ↦ some (record {
    tokens = tokens;
    back = t;
    pos = 0;
    has_err = false;
    in_module = false;
    in_func = in_func;
    in_loop = in_loop;
    messages = [];
  })
]

pub data Parsing {ℓ} (A : Type ℓ) : Type ℓ where
  parsed : A → ParserState → Parsing A
  thrown : ParseError → ParserState → Parsing A
  stopped undefined no_fuel : Parsing A

abbrev pub Parse {ℓ} : Type ℓ → Type ℓ
Parse A = ParserState → Parsing A

abbrev pub and_then {ℓ κ} : {A : Type ℓ} {B : Type κ} → Parsing A → (A → Parse B) → Parsing B
and_then (parsed a s) f = f a s
and_then (thrown e s) f = thrown e s
and_then stopped f = stopped
and_then undefined f = undefined
and_then no_fuel f = no_fuel

infixl 5 ◌>>=◌ ◌>>◌
abbrev pub ◌>>=◌ {ℓ κ} : {A : Type ℓ} {B : Type κ} → Parse A → (A → Parse B) → Parse B
◌>>=◌ m f s = and_then (m s) f

abbrev pub ◌>>◌ {ℓ κ} : {A : Type ℓ} {B : Type κ} → Parse A → Parse B → Parse B
m >> k = m >>= λ _. k

abbrev pub return {ℓ} : {A : Type ℓ} → A → Parse A
return a s = parsed a s

-- `error(msg)`
abbrev pub error {ℓ} : {A : Type ℓ} → ParseError → Parse A
error e s = thrown e (record s { has_err = true })

-- `cur()`
abbrev pub cur : ParserState → Token
cur s = get_or s.tokens s.pos s.back

-- `match(t)`
abbrev pub match : TokenType → ParserState → Bool
match t s = same_type (cur s).type t

-- `pos >= tokens.size() - 1`
abbrev pub is_eof : ParserState → Bool
is_eof s = leb (length s.tokens - 1) s.pos

-- `advance()`, with the number of moves that the bound `pos < tokens.size()` allows: a comment is
-- passed over by another `advance()`.
unfoldable pub advance_within : ℕ → Parse (Unit {0})
advance_within zero s = stopped
advance_within (suc left) s =
    let s' : ParserState = record s { pos = s.pos + 1 } in
    let again = advance_within left s' in
    if match comment s'
    then again
    else if match unknown s'
    then error (unknown_token (cur s').text) s'
    else parsed tt s'

unfoldable pub advance : Parse (Unit {0})
unfolding advance_within
advance s = advance_within (length s.tokens - s.pos) s

-- `advance(-1)`, behind an `advance()`.
unfoldable pub advance_back : Parse (Unit {0})
advance_back s =
    let s' : ParserState = record s { pos = s.pos - 1 } in
    if match comment s'
    then advance s'
    else if match unknown s'
    then error (unknown_token (cur s').text) s'
    else parsed tt s'

abbrev pub text : Parse Text
text s = parsed (cur s).text s

-- `if (match(t)) … else …`
abbrev pub on {ℓ} : {A : Type ℓ} → TokenType → Parse A → Parse A → Parse A
on t p q s = if match t s then p s else q s

-- `if (!match(t)) error(msg);`
abbrev pub require : TokenType → ParseError → Parse (Unit {0})
require t e s = if match t s then parsed tt s else error e s

-- `alert_eof(msg)`
abbrev pub alert_eof : ParseError → Parse (Unit {0})
alert_eof e s = if is_eof s then error e s else parsed tt s

-- `peek_match(t)`
abbrev pub peek_match : TokenType → Parse Bool
peek_match t s = elim (get_elem? s.tokens (s.pos + 1)) [
  | none ↦ undefined
  | some u ↦ parsed (same_type u.type t) s
]

-- `print_error(e)`
abbrev pub print_error : ParseError → ParserState → ParserState
print_error e s = record s { messages = s.messages ++ ((e, (cur s).line, (cur s).col) ∷ []) }
