-- ===== src/Tests/Session.antt =====
-- The interactive loop on a line of input.
use mylamina.Base.{◌+◌, ℕ, ◌≡◌, refl, false, [], ◌∷◌, ◌++◌, Text, none, arith, pos, ◌+ℤ◌}
use mylamina.Alloc.{new_allocator}
use mylamina.Alloc.Laws.{free_count}
use mylamina.Lexer.{TokenType, Token, end_of_file, oper_plus, skip_space, read_number}
use mylamina.Lexer.Next.{
  Tokens, tokenize, tokens_from, next, lex_token, lex_rest, single, double, lex_number, add_end,
  ends, reject, has_unknown, is_unknown, newlines, start_line,
}
use mylamina.Parser.Grammar.{Syntax, number, chain, link, end, tokens, node, size, IsWf, rank}
use mylamina.Generator.State.{new_generator, Gen, sto}
use mylamina.Generator.Expr.{operator}
use mylamina.Generator.Arith.{need, eval}
use mylamina.Generator.Arith.Meaning.{plus}
use mylamina.Vm.State.{initial_core}
use mylamina.Repl.{Repl, Memory, repl_line}
use mylamina.Repl.Session.{IsReady, Answers, repl_line-arith}
use mylamina.Repl.Lines.{Rounds, Expression, Rounds-arith}
use mylamina.Tests.Hosts.{plain_host}

-- 1+2
abbrev line : Text
line = b'1' ∷ b'+' ∷ b'2' ∷ []

abbrev at_col : TokenType → Text → ℕ → ℕ → Token
at_col t s l c = record { type = t; text = s; line = l + 1; col = c }

-- The tokens of the line that the lexer reads when it stands at line `l`.
abbrev three : ℕ → Syntax
three l = chain 2 (number (at_col TokenType.num_literal (b'1' ∷ []) l 1)) (
    link (at_col oper_plus (b'+' ∷ []) l 2) (number (at_col TokenType.num_literal (b'2' ∷ []) l 3))
      end)

abbrev line_end : ℕ → Token
line_end l = at_col end_of_file [] l 4

-- The pool lies at 4096, and no text is read.
abbrev fixed : Memory
fixed pool text_at = (4096, text_at)

abbrev no_file : Text → Gen ℕ
no_file path g = none

-- The loop before its first line.
abbrev fresh : Repl
fresh = record {
  line = 1;
  generator = new_generator;
  core = initial_core (λ a. []);
  in_func = false;
  in_loop = false;
  shown = [];
}

lexed :
    (l : ℕ)
    → tokenize line l ≡ (
      Tokens.done (tokens (three l) ++ (line_end l ∷ [])) (record { line = l + 1; col = 4 }),
      false,
    )
unfolding tokens tokenize tokens_from next lex_token lex_rest single double lex_number add_end ends
    reject has_unknown is_unknown newlines start_line skip_space read_number
lexed l = refl

three-IsWf : (l : ℕ) → IsWf (three l)
unfolding IsWf rank
three-IsWf l =
    (refl, omega arith, (refl, refl, omega arith, tt), omega arith, λ e. absurd (omega (arith, e)))

repl_line-arith_example :
    (passes : ℕ) × Answers (repl_line plain_host no_file fixed 9 passes line fresh) fresh (pos 3)
unfolding size node new_generator new_allocator operator sto need free_count eval initial_core ◌+ℤ◌
repl_line-arith_example =
    repl_line-arith plain_host no_file fixed line (three 1) (line_end 1)
      (record { line = 2; col = 4 }) 8 fresh (pos 3) refl (lexed 1) (three-IsWf 1) (omega arith)
      refl (record { behind = refl; taken = refl }) (plus, (1, refl), (2, refl)) (omega arith) refl

three-Expression :
    (l : ℕ)
    → Expression new_generator.cur (initial_core (λ a. [])).cur new_generator.regs 8 line (pos 3) l
unfolding size node new_generator new_allocator operator sto need free_count eval initial_core ◌+ℤ◌
three-Expression l = record {
  e = three l;
  fin = line_end l;
  end_pos = record { line = l + 1; col = 4 };
  lexed = lexed l;
  wf = three-IsWf l;
  fuel = omega arith;
  closes = refl;
  arith_ok = (plus, (1, refl), (2, refl));
  enough = omega arith;
  value = refl;
}

Rounds-arith_example :
    (t : Repl) × Rounds plain_host no_file fixed 9 fresh (line ∷ line ∷ []) t
    × (t.shown ≡ pos 3 ∷ pos 3 ∷ [])
    × IsReady t
unfolding new_generator new_allocator initial_core
Rounds-arith_example =
    Rounds-arith plain_host no_file fixed 8 new_generator.cur (initial_core (λ a. [])).cur
      new_generator.regs ((line, pos 3) ∷ (line, pos 3) ∷ []) fresh
      (record { behind = refl; taken = refl }) refl refl refl
      (refl, three-Expression, (refl, three-Expression, tt))
