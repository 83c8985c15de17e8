-- ===== src/Tests/Drive.antt =====
-- Files that are compiled, saved and run, at a concrete source.
use mylamina.Value.{assign_i64}
use mylamina.Base.{
  ℕ, ◌+ℤ◌, signed64, pattern64, suc, ◌+◌, ◌≡◌, refl, false, [], ◌∷◌, ◌++◌, List, map, some, Text,
  of_le, lookup, insert, le_bytes, All,
}
use mylamina.Opcode.{Op, halt, new_op, add}
use mylamina.Emit.{emit_mov_ri, emit_regs, emit_mov_rr, emit_halt}
use mylamina.Emit.Shape.{IsEmitted}
use mylamina.Ast.{Node, cons, nil}
use mylamina.Lexer.{Token, TokenType, oper_plus, end_of_file, skip_space, read_number}
use mylamina.Lexer.Next.{
  Tokens, tokenize, tokens_from, next, lex_token, lex_rest, single, double, lex_number, add_end,
  ends, reject, has_unknown, is_unknown, newlines, start_line,
}
use mylamina.Parser.Types.{check_type}
use mylamina.Parser.State.{ParserState, parsed, new_parser, advance, advance_within}
use mylamina.Parser.Expr.{
  parse_expr, expr_body, parse_logical_and, parse_logical_or, parse_relational, expr, term, factor,
  chain, binary_loop, pipe_loop,
}
use mylamina.Parser.Stmt.{parse_program, statements, parse, dispatch, parse_default, in_loop_only}
use mylamina.Generator.State.{Gen, Generator, new_generator, sto}
use mylamina.Generator.Expr.{gen_num, gen_binary, combine, operator}
use mylamina.Generator.Tree.{gen, sub_gen, basic_gen_block}
use mylamina.Alloc.{new_allocator, alloc, alloc_from, free}
use mylamina.Vm.{run, step, execute}
use mylamina.Vm.State.{VirtualCore, Outcome, initial_core}
use mylamina.Vm.Steps.{step_mov_ri, step_arith, arith64}
use mylamina.Loader.{load, loaded, get_ops, write_binary}
use mylamina.Generator.Use.{
  compile, compile_code, read_file, lexed_tree, parsing_tree, parsed_tree, gen_use,
  gen_use-KeepsAll,
}
use mylamina.Generator.Keeps.{KeepsAll}
use mylamina.Generator.Keeps.Program.{IsProgram, gen-IsProgram}
use mylamina.Loader.Trim.{trimmed, load-trimmed}
use mylamina.Vm.Blind.{with_program, stopped_with, IsBlind}
use mylamina.Vm.Trimmed.{run-trimmed}
use mylamina.Driver.Saved.{RunsAgain, file_run-saves}
use mylamina.Driver.Kept.{IsTidy, file_run-IsTidy}
use mylamina.Driver.{
  Files, ran, output_path, new_core, status_of, run_program, file_run, opened_file, source_of,
  lexed_file, parse_file, parsed_file, generated_file, save_and_run,
}
use mylamina.Repl.{Memory}
use mylamina.Tests.Hosts.{plain_host}

abbrev fixed : Memory
fixed pool text_at = (4096, text_at)

-- 1+22, in a.lm
abbrev source : Text
source = b'1' ∷ b'+' ∷ b'2' ∷ b'2' ∷ []

abbrev path : Text
path = b'a' ∷ b'.' ∷ b'l' ∷ b'm' ∷ []

abbrev sources : Files
sources = (path, source) ∷ []

abbrev used : Text → Gen ℕ
used = gen_use 2 6 sources

abbrev at_col : TokenType → Text → ℕ → Token
at_col t x c = record { type = t; text = x; line = 2; col = c }

abbrev source_tokens : List Token
source_tokens =
    at_col TokenType.num_literal (b'1' ∷ []) 1
    ∷ at_col oper_plus (b'+' ∷ []) 2
    ∷ at_col TokenType.num_literal (b'2' ∷ b'2' ∷ []) 3
    ∷ at_col end_of_file [] 5
    ∷ []

lexed : tokenize source 1 ≡ (Tokens.done source_tokens (record { line = 2; col = 5 }), false)
unfolding tokenize tokens_from next lex_token lex_rest single double lex_number add_end ends reject
    has_unknown is_unknown newlines start_line skip_space read_number
lexed = refl

abbrev tree : Node
tree = Node.program (
    cons
      (Node.binary (Node.num_literal (b'1' ∷ [])) (Node.num_literal (b'2' ∷ b'2' ∷ [])) (b'+' ∷ []))
      nil)

abbrev first : ParserState
first = record {
  tokens = source_tokens;
  back = at_col end_of_file [] 5;
  pos = 0;
  has_err = false;
  in_module = false;
  in_func = false;
  in_loop = false;
  messages = [];
}

started : new_parser false false source_tokens ≡ some first
unfolding new_parser
started = refl

read : parse_program 6 first ≡ parsed tree (record first { pos = 3 })
unfolding parse_program statements parse dispatch parse_default in_loop_only parse_expr expr_body
    parse_logical_and parse_logical_or parse_relational expr term factor chain binary_loop pipe_loop
    check_type advance advance_within
read = refl

generated :
    (r : ℕ) × (g : Generator) × (gen used tree new_generator ≡ some (r, g))
    × (g.node_has_error ≡ false)
    × (o : Outcome) × (fs : Files) × (save_and_run plain_host used fixed
          (λ a. [])
          9
          path
          sources
          (g.emitter.ops ++ (new_op halt ∷ []))
          g.constant_pool
          (write_binary (g.emitter.ops ++ (new_op halt ∷ [])) g.constant_pool)
        ≡ (ran o, fs))
unfolding gen sub_gen basic_gen_block gen_num gen_binary combine operator sto new_generator
    new_allocator alloc alloc_from free emit_mov_ri emit_mov_rr emit_regs emit_halt new_op
    save_and_run write_binary get_ops run_program status_of run step execute step_mov_ri step_arith
    arith64 new_core initial_core ◌+ℤ◌ insert signed64 assign_i64 pattern64 of_le le_bytes
generated = (_, _, refl, refl, _, _, refl)

ran_source :
    (o : Outcome) × (fs : Files) × (file_run plain_host used fixed (λ a. []) 6 9 9 path sources
      ≡ (ran o, fs))
unfolding file_run opened_file source_of lexed_file parse_file parsed_file generated_file lookup
    of_le
ran_source =
    let (r, g, made, fine, o, fs, ends) = generated in
    (o, fs, rw (lexed, started, read, made, fine) ends)

used-KeepsAll : (p : Text) → KeepsAll (used p)
used-KeepsAll = gen_use-KeepsAll 2 6 sources

-- The tree of `use "a.lm"`, which compiles the source.
compiled : compile 6 sources path ≡ some tree
unfolding compile compile_code read_file lexed_tree parsing_tree parsed_tree lookup
compiled = rw (lexed, started, read) refl

abbrev use_tree : Node
use_tree = Node.program (cons (Node.use_node path) nil)

used_source : (r : ℕ) × (g : Generator) × (gen used use_tree new_generator ≡ some (r, g))
unfolding gen sub_gen basic_gen_block gen_use gen_num gen_binary combine operator sto new_generator
    new_allocator alloc alloc_from free emit_mov_ri emit_mov_rr emit_regs emit_halt new_op
used_source = rw compiled (_, _, refl)

gen-IsProgram_example : IsProgram used_source.1.emitter.ops
unfolding new_generator
gen-IsProgram_example =
    gen-IsProgram used use_tree new_generator used-KeepsAll (record { each = tt }) used_source.2

file_run-saves_example :
    (os : List Op) × (pool : List ℕ) × All IsEmitted os
    × (run_program plain_host fixed
          (λ a. [])
          9
          ((os ++ (new_op halt ∷ [])) ++ (new_op halt ∷ []))
          pool
        ≡ ran ran_source.0)
    × RunsAgain plain_host used fixed (λ a. []) (output_path path) ran_source.1 os pool
unfolding lookup of_le
file_run-saves_example =
    file_run-saves plain_host used fixed (λ a. []) used-KeepsAll 9 path sources 6 9 source refl refl
      ran_source.2

file_run-IsTidy_example :
    IsTidy path sources (file_run plain_host used fixed (λ a. []) 6 9 9 path sources)
file_run-IsTidy_example = file_run-IsTidy plain_host used fixed (λ a. []) 9 path sources 6 9

abbrev zero_sum : Op
zero_sum = record { op = add; operands = 1 ∷ 0 ∷ 0 ∷ 7 ∷ 8 ∷ 9 ∷ 1 ∷ 2 ∷ 3 ∷ 4 ∷ 5 ∷ 6 ∷ [] }

plain_host-IsBlind : IsBlind plain_host
plain_host-IsBlind = record {
  reads = λ p s i. refl;
  loads = λ p s i. refl;
  sets = λ p s. refl;
  calls = λ p s. refl;
}

abbrev two_programs : VirtualCore
two_programs = record (initial_core (λ a. [])) { program = zero_sum ∷ new_op halt ∷ [] }

run-trimmed_example :
    run plain_host 2 (with_program (map trimmed two_programs.program) two_programs)
    ≡ stopped_with (map trimmed two_programs.program) (run plain_host 2 two_programs)
unfolding new_op
run-trimmed_example = run-trimmed plain_host plain_host-IsBlind 2 two_programs (refl, (refl, tt))

load-trimmed_example :
    (file : List ℕ) × (write_binary (zero_sum ∷ new_op halt ∷ []) (65 ∷ 0 ∷ []) ≡ some file)
    × (load (suc (1 + 3)) file ≡ loaded (map trimmed (zero_sum ∷ new_op halt ∷ [])) (65 ∷ 0 ∷ []))
load-trimmed_example =
    load-trimmed (zero_sum ∷ []) (65 ∷ 0 ∷ []) 3
      (record { enumerator = tt; goes_on = refl; full = refl }, tt)
