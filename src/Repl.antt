-- ===== src/Repl.antt =====
-- tools/lm/common/repl.cpp: the loop of `run_repl`, one line of input at a time. Where the constants
-- lie in memory, and what is read there, is the argument `memory`: from the pool and the memory as
-- it was, the address of the pool and the memory as it is. The listings of `:op` and `:vars` and
-- the prompt are not modelled.
pub mod Session
pub mod Lines
use mylamina.Base.{
  ℕ, Bool, true, false, ◌||◌, ◌==◌, List, [], ◌∷◌, Option, none, some, if◌then◌else◌, Text, text_eq,
  ℤ, get_last?,
}
use mylamina.Opcode.{Op}
use mylamina.Loader.{is_halt}
use mylamina.Lexer.Next.{Tokens, tokenize}
use mylamina.Ast.{Node, is_null}
use mylamina.Parser.State.{
  ParserState, Parsing, parsed, thrown, stopped, undefined, no_fuel, new_parser,
}
use mylamina.Parser.Stmt.{parse}
use mylamina.Alloc.{size_max, free}
use mylamina.Value.{as_i64}
use mylamina.Generator.State.{Generator, Gen}
use mylamina.Generator.Tree.{gen}
use mylamina.Vm.{run}
use mylamina.Vm.State.{VirtualCore, Host, Outcome, running, returned, exited, fault}

-- The lexer's line, the generator, the machine, the `static` flags of `Parser::parse`, and the
-- numbers that were printed, the last one first.
pub record Repl : Type 0 where
  pub line : ℕ
  pub generator : Generator
  pub core : VirtualCore
  pub in_func : Bool
  pub in_loop : Bool
  pub shown : List ℤ

-- What a line comes to: the next prompt, the end of the loop or of the process, a crash, or no end.
pub data Reply : Type 0 where
  goes_on : Repl → Reply
  leaves crashes endless : Reply

abbrev pub Memory : Type 0
Memory = List ℕ → (ℕ → List ℕ) → ℕ × (ℕ → List ℕ)

-- `ops.pop_back()`
unfoldable pub pop_back : List Op → List Op
pop_back [] = []
pop_back (o ∷ []) = []
pop_back (o ∷ o' ∷ os) = o ∷ pop_back (o' ∷ os)

abbrev pub set_ops : List Op → Generator → Generator
set_ops ops g = record g { emitter = record g.emitter { ops = ops } }

-- `if (generator.ops.back().op == HALT) generator.ops.pop_back();`
unfoldable pub without_halt : Option Op → Repl → Reply
without_halt none r = crashes
without_halt (some o) r = goes_on (
    if is_halt o.op
    then record r { generator = set_ops (pop_back r.generator.emitter.ops) r.generator }
    else r)

unfoldable pub drop_halt : Repl → Reply
unfolding without_halt
drop_halt r = without_halt (get_last? r.generator.emitter.ops) r

-- `if (op != -1) { generator.regs.free(op); std::cout << core.look_register(op) << std::endl; }`
unfoldable pub show_register : ℕ → Repl → Repl
show_register op r = if op == size_max then r else record r {
  generator = record r.generator { regs = free op r.generator.regs };
  shown = as_i64 (r.core.regs op) ∷ r.shown;
}

-- `core.run()` has come to its end.
unfoldable pub ran_line : ℕ → Option Outcome → Repl → Reply
ran_line op none r = endless
ran_line op (some (running t)) r = endless
ran_line op (some (returned code t)) r = drop_halt (show_register op (record r { core = t }))
ran_line op (some (exited code t)) r = leaves
ran_line op (some fault) r = crashes

-- `core.set_constant(…)` and `core.run()`. The machine reads the program of the generator.
abbrev pub loaded_core : Memory → Generator → VirtualCore → VirtualCore
loaded_core memory g s = record s {
  program = g.emitter.ops;
  const_pool_top = (memory g.constant_pool s.text_at).0;
  text_at = (memory g.constant_pool s.text_at).1;
}

unfoldable pub run_line : Host → Memory → ℕ → ℕ → Repl → Reply
unfolding ran_line
run_line host memory passes op r =
    ran_line op (run host passes (loaded_core memory r.generator r.core)) r

-- `generator.gen(node)` has come to its end.
unfoldable pub generated_line : Host → Memory → ℕ → Option (ℕ × Generator) → Repl → Reply
generated_line host memory passes none r = crashes
generated_line host memory passes (some (op, g)) r =
    if g.node_has_error
    then goes_on (record r { generator = g })
    else run_line host memory passes op (record r { generator = g })

unfoldable pub gen_line : Host → (Text → Gen ℕ) → Memory → ℕ → Node → Repl → Reply
unfolding generated_line
gen_line host c memory passes n r =
    generated_line host memory passes (gen c n (record r.generator { node_has_error = false })) r

-- `parser.parse()` has come to its end.
unfoldable pub parsed_line : Host → (Text → Gen ℕ) → Memory → ℕ → Parsing Node → Repl → Reply
parsed_line host c memory passes (parsed n t) r =
    let r' = record r { in_func = t.in_func; in_loop = t.in_loop } in
    if is_null n || t.has_err then goes_on r' else gen_line host c memory passes n r'
parsed_line host c memory passes (thrown e t) r = crashes
parsed_line host c memory passes stopped r = crashes
parsed_line host c memory passes undefined r = crashes
parsed_line host c memory passes no_fuel r = endless

-- `lmx::Parser parser(tks, …)`
unfoldable pub parse_line :
    Host → (Text → Gen ℕ) → Memory → ℕ → ℕ → Option ParserState → Repl → Reply
parse_line host c memory rounds passes none r = crashes
parse_line host c memory rounds passes (some s) r =
    parsed_line host c memory passes (parse rounds s) r

-- `tokenize` has come to its end.
unfoldable pub lexed_line : Host → (Text → Gen ℕ) → Memory → ℕ → ℕ → Tokens × Bool → Repl → Reply
lexed_line host c memory rounds passes (Tokens.done ts p, true) r =
    goes_on (record r { line = p.line })
lexed_line host c memory rounds passes (Tokens.done ts p, false) r =
    parse_line host c memory rounds passes (new_parser r.in_func r.in_loop ts)
      (record r { line = p.line })
lexed_line host c memory rounds passes (Tokens.out_of_bounds, bad) r = crashes
lexed_line host c memory rounds passes (Tokens.out_of_fuel, bad) r = endless

-- The texts that are no source.
abbrev pub last_ret : Text
last_ret = b':' ∷ b'l' ∷ b'a' ∷ b's' ∷ b't' ∷ b'r' ∷ b'e' ∷ b't' ∷ []

abbrev pub exit_text : Text
exit_text = b':' ∷ b'e' ∷ b'x' ∷ b'i' ∷ b't' ∷ []

abbrev pub op_text : Text
op_text = b':' ∷ b'o' ∷ b'p' ∷ []

abbrev pub vars_text : Text
vars_text = b':' ∷ b'v' ∷ b'a' ∷ b'r' ∷ b's' ∷ []

-- One round of the loop, on the line `input`.
unfoldable pub repl_line : Host → (Text → Gen ℕ) → Memory → ℕ → ℕ → Text → Repl → Reply
repl_line host c memory rounds passes input r =
    if text_eq input last_ret
    then goes_on (record r { shown = as_i64 (r.core.regs 0) ∷ r.shown })
    else if text_eq input exit_text
    then leaves
    else if text_eq input op_text || text_eq input vars_text
    then goes_on r
    else lexed_line host c memory rounds passes (tokenize input r.line) r
