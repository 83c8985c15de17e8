-- ===== src/Repl/Session.antt =====
-- tools/lm/common/repl.cpp: a line that is an integer expression is answered with its value.
use mylamina.Base.{
  ℕ, suc, ◌+◌, ◌≤◌, ◌<◌, ◌≡◌, refl, Bool, true, false, ◌||◌, ◌==◌, List, [], ◌∷◌, ◌++◌, some,
}
use mylamina.Base.{
  arith, ap, ◌∙◌, Text, text_eq, ℤ, length, length-append, get_last?, get_last?-concat,
  if◌then◌else◌,
}
use mylamina.Opcode.{Op, new_op, halt}
use mylamina.Lexer.{Token, Pos, end_of_file}
use mylamina.Lexer.Next.{Tokens, tokenize}
use mylamina.Ast.{Node}
use mylamina.Alloc.{Allocator, free, set_bit, size_max}
use mylamina.Alloc.Laws.{free_count, free-set_bit, pos_of_free}
use mylamina.Parser.State.{new_parser}
use mylamina.Parser.Grammar.{Syntax, tokens, node, size, IsWf}
use mylamina.Parser.Forms.{alone, IsStmt, stmt_size, stmt_tokens, stmt_node}
use mylamina.Parser.Entry.{stmt_node-is_null}
use mylamina.Parser.Program.{started}
use mylamina.Parser.Statements.{stmt-Reads}
use mylamina.Generator.State.{Generator, Gen}
use mylamina.Generator.Arith.{extended, IsArith, need, eval}
use mylamina.Generator.Arith.Run.{ended, gen_exact}
use mylamina.Value.{as_i64}
use mylamina.Vm.State.{VirtualCore, Host}
use mylamina.Repl.{
  Repl, Reply, goes_on, Memory, pop_back, set_ops, drop_halt, show_register, without_halt,
  loaded_core, ran_line, run_line, generated_line, gen_line, parse_line, parsed_line, lexed_line,
  last_ret, exit_text, op_text, vars_text, repl_line,
}

pop_back-concat : (l : List Op) (o : Op) → pop_back (l ++ (o ∷ [])) ≡ l
unfolding pop_back
pop_back-concat [] o = refl
pop_back-concat (x ∷ []) o = refl
pop_back-concat (x ∷ y ∷ l) o = ap (λ t. x ∷ t) (pop_back-concat (y ∷ l) o)

-- The machine stands behind the generated program, and register 0 is taken.
pub record IsReady (r : Repl) : Type 0 where
  pub behind : r.core.pc ≡ length r.generator.emitter.ops
  pub taken : r.generator.regs 0 ≡ true

-- The reply to a line: the number is shown, and the next line finds what this one did.
pub record Answers (reply : Reply) (r : Repl) (v : ℤ) : Type 0 where
  pub after : Repl
  pub result : reply ≡ goes_on after
  pub shown : after.shown ≡ v ∷ r.shown
  pub ready : IsReady after
  pub names : after.generator.cur ≡ r.generator.cur
  pub registers : after.generator.regs ≡ r.generator.regs
  pub frames : after.core.cur ≡ r.core.cur

-- The text is no command.
abbrev pub is_command : Text → Bool
is_command t =
    text_eq t last_ret || text_eq t exit_text || (text_eq t op_text || text_eq t vars_text)

no_command :
    (t : Text)
    → is_command t ≡ false
    → (text_eq t last_ret ≡ false)
      × (text_eq t exit_text ≡ false)
      × (text_eq t op_text || text_eq t vars_text ≡ false)
no_command t h = (ground (arith, h), ground (arith, h), ground (arith, h))

module _ (host : Host) (c : Text → Gen ℕ) (memory : Memory) where
  -- HALT is taken off.
  drop_halt-concat :
      (r : Repl) (ops : List Op)
      → r.generator.emitter.ops ≡ ops ++ (new_op halt ∷ [])
      → drop_halt r ≡ goes_on (record r { generator = set_ops ops r.generator })
  unfolding drop_halt without_halt new_op
  drop_halt-concat r ops e =
      let q : get_last? r.generator.emitter.ops ≡ some (new_op halt) =
        ap (λ l. get_last? l) e ∙ get_last?-concat ops (new_op halt) in
      let w : pop_back r.generator.emitter.ops ≡ ops =
        ap pop_back e ∙ pop_back-concat ops (new_op halt) in
      ap (λ o. without_halt o r) q
      ∙ ap (λ l. goes_on (record r { generator = set_ops l r.generator })) w

  -- The register is shown and freed.
  show_register-small :
      (r : Repl) (op : ℕ)
      → op < 255
      → show_register op r ≡ record r {
        generator = record r.generator { regs = free op r.generator.regs };
        shown = as_i64 (r.core.regs op) ∷ r.shown;
      }
  unfolding show_register
  show_register-small r op small =
      let ne : op == size_max ≡ false = ground (arith, small) in rw ne refl

  -- An expression that the parser has read.
  gen_line-arith :
      (n : Node) (r : Repl) (v : ℤ)
      → r.core.pc ≡ length r.generator.emitter.ops
      → r.generator.regs 0 ≡ true
      → IsArith r.generator.cur n
      → need n ≤ free_count r.generator.regs
      → eval r.generator.cur r.core.cur n ≡ some v
      → (passes : ℕ) × Answers (gen_line host c memory passes n r) r v
  unfolding gen_line generated_line run_line ran_line
  gen_line-arith n r v behind taken arith_ok enough ev =
      let g : Generator = record r.generator { node_has_error = false } in
      let (op, code, small, was_free, result, runs) = gen_exact host c n g arith_ok taken enough in
      let ops = g.emitter.ops ++ code in
      let g' : Generator = ended host (extended g op code) in
      let core : VirtualCore = loaded_core memory g' r.core in
      let (regs, ran, holds, keep) = runs core v refl behind ev in
      let end_core : VirtualCore = record core { pc = core.pc + length code; regs = regs } in
      let restored : free op (set_bit op true g.regs) ≡ g.regs =
        free-set_bit op g.regs (pos_of_free op g.regs taken was_free) small was_free in
      (
        length code + 1,
        record {
          after = record r {
            generator = set_ops ops (record g' { regs = free op (set_bit op true g.regs) });
            core = end_core;
            shown = as_i64 (regs op) ∷ r.shown;
          };
          result =
              ap (λ x. generated_line host memory (length code + 1) x r) result
              ∙ ap (λ x. ran_line op x (record r { generator = g' })) ran
              ∙ (ap drop_halt
                    (show_register-small (record r { generator = g'; core = end_core }) op small)
                  ∙ drop_halt-concat
                      (record r {
                        generator = record g' { regs = free op (set_bit op true g.regs) };
                        core = end_core;
                        shown = as_i64 (regs op) ∷ r.shown;
                      })
                      ops refl);
          shown = ap (λ x. x ∷ r.shown) holds.value;
          ready = record {
            behind = omega (arith, length-append g.emitter.ops code, behind);
            taken = ap (λ (b : Allocator). b 0) restored ∙ taken;
          };
          names = refl;
          registers = restored;
          frames = refl;
        },
      )

  -- The tokens of an expression and the end of the line.
  parse_line-arith :
      (e : Syntax) (fin : Token) (k : ℕ) (r : Repl) (v : ℤ)
      → IsWf e
      → suc (size e) ≤ k
      → fin.type ≡ end_of_file
      → IsReady r
      → IsArith r.generator.cur (node e)
      → need (node e) ≤ free_count r.generator.regs
      → eval r.generator.cur r.core.cur (node e) ≡ some v
      → (passes : ℕ) × Answers
          (parse_line host c memory
            (suc k)
            passes
            (new_parser r.in_func r.in_loop (tokens e ++ (fin ∷ [])))
            r)
          r
          v
  unfolding new_parser parse_line parsed_line IsStmt stmt_size stmt_tokens stmt_node
  parse_line-arith e fin k r v wf fuel closes ready arith_ok enough ev =
      let ts = tokens e ++ (fin ∷ []) in
      let s = started r.in_func r.in_loop ts fin in
      let made : new_parser r.in_func r.in_loop ts ≡ some s =
        rw (new_parser, get_last?-concat (tokens e) fin) refl in
      let x = stmt-Reads (alone e) k s fin [] wf (omega (arith, fuel)) (rw closes refl) refl in
      let (passes, a) = gen_line-arith (node e) r v ready.behind ready.taken arith_ok enough ev in
      (
        passes,
        record {
          after = a.after;
          result =
              ap (λ o. parse_line host c memory (suc k) passes o r) made
              ∙ ap (λ p. parsed_line host c memory passes p r) x.result
              ∙ ap (λ b. if b || false then goes_on r else gen_line host c memory passes (node e) r)
                  (stmt_node-is_null (alone e))
              ∙ a.result;
          shown = a.shown;
          ready = a.ready;
          names = a.names;
          registers = a.registers;
          frames = a.frames;
        },
      )

  -- A line that is no command, whose tokens are those of a well-formed expression and the end of
  -- the file, with rounds for the size of the expression, where the expression is one of numerals
  -- that fit, known variables, unary minus and the five operators, enough registers are free,
  -- register 0 is taken, the machine stands behind the program and the expression has a value:
  -- for some number of passes of the machine, `repl_line` goes on, has shown the value, and
  -- leaves the machine behind the program, with the registers, the names and the frames as they
  -- were.
  pub repl_line-arith :
      (input : Text) (e : Syntax) (fin : Token) (p : Pos) (k : ℕ) (r : Repl) (v : ℤ)
      → is_command input ≡ false
      → tokenize input r.line ≡ (Tokens.done (tokens e ++ (fin ∷ [])) p, false)
      → IsWf e
      → suc (size e) ≤ k
      → fin.type ≡ end_of_file
      → IsReady r
      → IsArith r.generator.cur (node e)
      → need (node e) ≤ free_count r.generator.regs
      → eval r.generator.cur r.core.cur (node e) ≡ some v
      → (passes : ℕ) × Answers (repl_line host c memory (suc k) passes input r) r v
  unfolding repl_line lexed_line
  repl_line-arith input e fin p k r v source lexed wf fuel closes ready arith_ok enough ev =
      let r' : Repl = record r { line = p.line } in
      let (passes, a) =
        parse_line-arith e fin k r' v wf fuel closes
          (record { behind = ready.behind; taken = ready.taken }) arith_ok enough ev in
      let (no_last, no_exit, no_list) = no_command input source in
      (
        passes,
        record {
          after = a.after;
          result =
              rw (no_last, no_exit, no_list)
                (ap (λ t. lexed_line host c memory (suc k) passes t r) lexed)
              ∙ a.result;
          shown = a.shown;
          ready = a.ready;
          names = a.names;
          registers = a.registers;
          frames = a.frames;
        },
      )
