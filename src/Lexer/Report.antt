-- ===== src/Lexer/Report.antt =====
-- compiler/lexer.hpp, lexer.cpp: the text of a token and the message of `Lexer::error`.
-- The order in which an `unordered_map` is walked is the argument `order`, the longest string is
-- `max_size`.
pub mod Silent
use mylamina.Base.{
  ◌%◌, ◌^◌, ltb, length, ◌>>=◌, ℕ, zero, suc, ◌+◌, ◌-◌, Bool, true, false, ◌==◌, List, [], ◌∷◌,
  ◌++◌, Option, none, some, if◌then◌else◌, Text, get_last?, set, replicate, dec_text,
}
use mylamina.Lexer.{
  sub64, TokenType, Token, end_of_file, identifier, num_literal, string_literal, comma,
  true_literal, false_literal, oper_plus, oper_minus, oper_mul, oper_div, oper_mod, eq, ge, gt, le,
  lt, colon, col_colon, oper_pow, assign, not_tok, ne, lparen, rparen, lbrack, rbrack, lbrace,
  rbrace, unknown, kw_func, kw_return,
}
use mylamina.Lexer.Next.{is_unknown}

-- `to_string(type)`
unfoldable pub to_string : TokenType → Text
to_string end_of_file =
    b'E' ∷ b'N' ∷ b'D' ∷ b'_' ∷ b'O' ∷ b'F' ∷ b'_' ∷ b'F' ∷ b'I' ∷ b'L' ∷ b'E' ∷ []
to_string identifier = b'I' ∷ b'D' ∷ b'E' ∷ b'N' ∷ b'T' ∷ b'I' ∷ b'F' ∷ b'I' ∷ b'E' ∷ b'R' ∷ []
to_string num_literal =
    b'I' ∷ b'N' ∷ b'T' ∷ b'_' ∷ b'L' ∷ b'I' ∷ b'T' ∷ b'E' ∷ b'R' ∷ b'A' ∷ b'L' ∷ []
to_string string_literal =
    b'S' ∷ b'T' ∷ b'R' ∷ b'I' ∷ b'N' ∷ b'G' ∷ b'_' ∷ b'L' ∷ b'I' ∷ b'T' ∷ b'E' ∷ b'R' ∷ b'A' ∷ b'L'
    ∷ []
to_string comma = b'C' ∷ b'O' ∷ b'M' ∷ b'M' ∷ b'A' ∷ []
to_string true_literal =
    b'T' ∷ b'R' ∷ b'U' ∷ b'E' ∷ b'_' ∷ b'L' ∷ b'I' ∷ b'T' ∷ b'E' ∷ b'R' ∷ b'A' ∷ b'L' ∷ []
to_string false_literal =
    b'F' ∷ b'A' ∷ b'L' ∷ b'S' ∷ b'E' ∷ b'_' ∷ b'L' ∷ b'I' ∷ b'T' ∷ b'E' ∷ b'R' ∷ b'A' ∷ b'L' ∷ []
to_string oper_plus = b'O' ∷ b'P' ∷ b'E' ∷ b'R' ∷ b'_' ∷ b'P' ∷ b'L' ∷ b'U' ∷ b'S' ∷ []
to_string oper_minus = b'O' ∷ b'P' ∷ b'E' ∷ b'R' ∷ b'_' ∷ b'M' ∷ b'I' ∷ b'N' ∷ b'U' ∷ b'S' ∷ []
to_string oper_mul = b'O' ∷ b'P' ∷ b'E' ∷ b'R' ∷ b'_' ∷ b'M' ∷ b'U' ∷ b'L' ∷ []
to_string oper_div = b'O' ∷ b'P' ∷ b'E' ∷ b'R' ∷ b'_' ∷ b'D' ∷ b'I' ∷ b'V' ∷ []
to_string oper_mod = b'O' ∷ b'P' ∷ b'E' ∷ b'R' ∷ b'_' ∷ b'M' ∷ b'O' ∷ b'D' ∷ []
to_string eq = b'E' ∷ b'Q' ∷ []
to_string ge = b'G' ∷ b'E' ∷ []
to_string gt = b'G' ∷ b'T' ∷ []
to_string le = b'L' ∷ b'E' ∷ []
to_string lt = b'L' ∷ b'T' ∷ []
to_string colon = b'C' ∷ b'O' ∷ b'L' ∷ b'O' ∷ b'N' ∷ []
to_string col_colon = b'C' ∷ b'O' ∷ b'L' ∷ b'_' ∷ b'C' ∷ b'O' ∷ b'L' ∷ b'O' ∷ b'N' ∷ []
to_string oper_pow = b'O' ∷ b'P' ∷ b'E' ∷ b'R' ∷ b'_' ∷ b'P' ∷ b'O' ∷ b'W' ∷ []
to_string assign = b'A' ∷ b'S' ∷ b'S' ∷ b'I' ∷ b'G' ∷ b'N' ∷ []
to_string not_tok = b'N' ∷ b'O' ∷ b'T' ∷ []
to_string ne = b'N' ∷ b'E' ∷ []
to_string lparen = b'L' ∷ b'P' ∷ b'A' ∷ b'R' ∷ b'E' ∷ b'N' ∷ []
to_string rparen = b'R' ∷ b'P' ∷ b'A' ∷ b'R' ∷ b'E' ∷ b'N' ∷ []
to_string lbrack = b'L' ∷ b'B' ∷ b'R' ∷ b'A' ∷ b'C' ∷ b'K' ∷ []
to_string rbrack = b'R' ∷ b'B' ∷ b'R' ∷ b'A' ∷ b'C' ∷ b'K' ∷ []
to_string lbrace = b'L' ∷ b'B' ∷ b'R' ∷ b'A' ∷ b'C' ∷ b'E' ∷ []
to_string rbrace = b'R' ∷ b'B' ∷ b'R' ∷ b'A' ∷ b'C' ∷ b'E' ∷ []
to_string unknown = b'U' ∷ b'N' ∷ b'K' ∷ b'N' ∷ b'O' ∷ b'W' ∷ b'N' ∷ []
to_string kw_func =
    b'K' ∷ b'E' ∷ b'Y' ∷ b'W' ∷ b'O' ∷ b'R' ∷ b'D' ∷ b'_' ∷ b'F' ∷ b'U' ∷ b'N' ∷ b'C' ∷ []
to_string kw_return =
    b'K' ∷ b'E' ∷ b'Y' ∷ b'W' ∷ b'O' ∷ b'R' ∷ b'D' ∷ b'_' ∷ b'R' ∷ b'E' ∷ b'T' ∷ b'U' ∷ b'R' ∷ b'N'
    ∷ []
to_string _ =
    b'_' ∷ b'N' ∷ b'O' ∷ b'T' ∷ b'_' ∷ b'I' ∷ b'M' ∷ b'P' ∷ b'L' ∷ b'E' ∷ b'M' ∷ b'E' ∷ b'N' ∷ b'T'
    ∷ b'E' ∷ b'D' ∷ []

-- `std::format("Token({}, '{}', {}, {})", …)`
unfoldable pub format : Token → Text
format t =
    (b'T' ∷ b'o' ∷ b'k' ∷ b'e' ∷ b'n' ∷ b'(' ∷ [])
    ++ (to_string t.type
        ++ (b','
            ∷ b' '
            ∷ b'\''
            ∷ (t.text
                ++ (b'\''
                    ∷ b','
                    ∷ b' '
                    ∷ (dec_text t.line ++ (b',' ∷ b' ' ∷ (dec_text t.col ++ (b')' ∷ []))))))))

abbrev pub LineErrors : Type 0
LineErrors = List (ℕ × List ℕ)

-- `line_errors[line].push_back(col)`
unfoldable pub push_col : ℕ → ℕ → LineErrors → LineErrors
push_col line col [] = (line, col ∷ []) ∷ []
push_col line col ((l, cols) ∷ m) =
    if l == line then (l, cols ++ (col ∷ [])) ∷ m else (l, cols) ∷ push_col line col m

-- The first loop.
unfoldable pub collect : List Token → LineErrors → LineErrors
collect [] m = m
collect (t ∷ ts) m = collect ts (if is_unknown t.type then push_col t.line t.col m else m)

-- `iss` and `line_con`: what is left to read, whether the stream is good, and the last line.
pub record Reader : Type 0 where
  pub rest : Text
  pub good : Bool
  pub line_con : Text

-- The characters up to a newline, and the stream behind it; at the end of the text the stream is no
-- longer good.
unfoldable pub read_line : Text → Reader
read_line [] = record { rest = []; good = false; line_con = [] }
read_line (c ∷ cs) =
    let r = read_line cs in
    if c == b'\n'
    then record { rest = cs; good = true; line_con = [] }
    else record r { line_con = c ∷ r.line_con }

abbrev not_empty : Text → Bool
not_empty [] = false
not_empty (c ∷ cs) = true

-- `std::getline(iss, line_con)`: the reader, and whether it succeeded.
unfoldable pub get_line : Reader → Reader × Bool
unfolding read_line
get_line r = if r.good then (read_line r.rest, not_empty r.rest) else (r, false)

unfoldable pub skip_lines : ℕ → Reader → Option Reader
unfolding get_line
skip_lines zero r = some r
skip_lines (suc k) r =
    let (r', ok) = get_line r in let rest = skip_lines k r' in if ok then rest else none

-- `line_content`; `skipped` is `lineno - origin_lineno - 1`, with `size_t` wrap-around.
unfoldable pub line_content : Text → ℕ → Text
unfolding get_line
line_content content skipped =
    elim (skip_lines skipped (record { rest = content; good = true; line_con = [] })) [
      | none ↦ []
      | some r ↦ (get_line r).0.line_con
    ]

-- `str[col - 1] = '^'` for each column, with `size_t` wrap-around: `none` where the string has no
-- such character, which is undefined.
unfoldable pub set_carets : List ℕ → Text → Option Text
set_carets [] str = some str
set_carets (col ∷ cols) str =
    let at = (col + (2 ^ 64 - 1)) % 2 ^ 64 in
    let rest = set_carets cols (set str at b'^') in if ltb at (length str) then rest else none

-- `std::string str(cols.back() + 1, ' ')`, which throws above `max_size`, and the carets.
unfoldable pub caret_from : ℕ → Option ℕ → List ℕ → Option Text
unfolding set_carets
caret_from max_size none cols = some []
caret_from max_size (some back) cols =
    let size = (back + 1) % 2 ^ 64 in
    if ltb max_size size then none else set_carets cols (replicate size b' ')

-- `caret_line`
unfoldable pub caret_line : ℕ → List ℕ → Option Text
unfolding caret_from
caret_line max_size cols = caret_from max_size (get_last? cols) cols

-- `std::format("In line {}, …", …)`, once the carets are there.
unfoldable pub line_text : Text → Text → ℕ → ℕ → Text → Text
line_text content filename origin line carets =
    (b'I' ∷ b'n' ∷ b' ' ∷ b'l' ∷ b'i' ∷ b'n' ∷ b'e' ∷ b' ' ∷ [])
    ++ (dec_text line
        ++ ((b',' ∷ b' ' ∷ b'f' ∷ b'i' ∷ b'l' ∷ b'e' ∷ b' ' ∷ [])
            ++ (filename
                ++ ((b':' ∷ [])
                    ++ ((b'\n' ∷ b'>' ∷ b'>' ∷ b'>' ∷ b' ' ∷ [])
                        ++ (line_content content (sub64 line (origin + 1))
                            ++ ((b'\n' ∷ b' ' ∷ b' ' ∷ b' ' ∷ b' ' ∷ [])
                                ++ (carets ++ (b'\n' ∷ [])))))))))

-- The message for one line.
unfoldable pub line_message : ℕ → Text → Text → ℕ → ℕ × List ℕ → Option Text
unfolding line_text
line_message max_size content filename origin (line, cols) = do
  carets ← caret_line max_size cols
  some (line_text content filename origin line carets)

-- The second loop.
unfoldable pub messages : ℕ → Text → Text → ℕ → LineErrors → Option Text
messages max_size content filename origin [] = some []
messages max_size content filename origin (e ∷ es) = do
  m ← line_message max_size content filename origin e
  ms ← messages max_size content filename origin es
  some (m ++ ms)

-- `Lexer::error`: `none` where a caret is written outside its string, or the string is longer than
-- `max_size`.
unfoldable pub error : ℕ → (LineErrors → LineErrors) → Text → Text → List Token → ℕ → Option Text
error max_size order content filename tokens origin =
    messages max_size content filename origin (order (collect tokens []))
