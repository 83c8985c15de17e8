-- ===== src/Tests/Front.antt =====
-- The lexer at concrete texts.
use mylamina.Base.{◌≤◌, ◌≡◌, ◌≢◌, refl, [], ◌∷◌, ◌++◌, some, length}
use mylamina.Lexer.{Pos, Lexed, skip_space, oper_plus, kw_loop, word_type}
use mylamina.Lexer.Next.{next, lex_token, lex_rest, single, tokenize, out_of_fuel}
use mylamina.Lexer.Literals.{Finds, quote, next-quote}
use mylamina.Lexer.Progress.{next-length, tokenize-ends}

abbrev start : Pos
start = record { line = 1; col = 1 }

-- The text a"b, and a semicolon behind it.
next-quote_example :
    (l : Lexed) × (next (quote (b'a' ∷ b'"' ∷ b'b' ∷ []) ++ (b';' ∷ [])) start ≡ some l)
    × Finds (b'a' ∷ b'"' ∷ b'b' ∷ []) (b';' ∷ []) l
next-quote_example = next-quote (b'a' ∷ b'"' ∷ b'b' ∷ []) (b';' ∷ []) start

abbrev plus : Lexed
plus = record {
  token = record { type = oper_plus; text = b'+' ∷ []; line = 1; col = 1 };
  rest = b'1' ∷ [];
  pos = record { line = 1; col = 2 };
}

next-length_example : length plus.rest ≤ 1
unfolding next skip_space lex_token lex_rest single
next-length_example = next-length b'+' (b'1' ∷ []) start plus refl

tokenize-ends_example : (tokenize (b'a' ∷ b'+' ∷ []) 1).0 ≢ out_of_fuel
tokenize-ends_example = tokenize-ends (b'a' ∷ b'+' ∷ []) 1

word_type_loop : word_type (b'l' ∷ b'o' ∷ b'o' ∷ b'p' ∷ []) ≡ kw_loop
unfolding word_type
word_type_loop = refl
