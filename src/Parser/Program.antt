-- ===== src/Parser/Program.antt =====
-- compiler/parser.cpp, `parse_program`: the tokens of a program are read as its tree.
use mylamina.Base.{ℕ, ◌-◌, ◌≤◌, ◌≡◌, refl, Bool, true, false, List, [], ◌∷◌, ◌++◌, some, length}
use mylamina.Base.{arith, sym, ap, ◌∙◌}
use mylamina.Base.{get_last?-concat}
use mylamina.Lexer.{Token, end_of_file}
use mylamina.Ast.{program}
use mylamina.Parser.State.{ParserState, return, new_parser}
use mylamina.Parser.Stmt.{statements, parse, parse_program}
use mylamina.Parser.Reads.{goto, At, Reads, Reads-bind, Reads-return, length-drop}
use mylamina.Parser.Forms.{Stmts, stmts_tokens, stmts_nodes, stmts_size, AreStmts}
use mylamina.Parser.Compound.{at_end}
use mylamina.Parser.Statements.{stmts-Reads}

-- The last token ends the loop over statements.
last-at_end : (s : ParserState) (t : Token) → At s (t ∷ []) → at_end s ≡ true
last-at_end s t h =
    let one : length s.tokens - s.pos ≡ 1 = sym (length-drop s.pos s.tokens) ∙ ap length h in
    ground (arith, one)

-- What `new_parser` makes of the tokens of a program.
abbrev pub started : Bool → Bool → List Token → Token → ParserState
started in_func in_loop ts t = record {
  tokens = ts;
  back = t;
  pos = 0;
  has_err = false;
  in_module = false;
  in_func = in_func;
  in_loop = in_loop;
  messages = [];
}

-- A parser over the tokens of statements that are well-formed under its flags, and the end of the
-- file behind them, if it may take rounds for the size of the program: `parse_program` succeeds
-- with the trees of the statements and stands in front of the end then. Nothing else of the state
-- has changed, so nothing was printed.
pub parse_program-tokens :
    (in_func in_loop : Bool) (ss : Stmts) (f : ℕ) (fin : Token)
    → AreStmts in_func in_loop ss
    → stmts_size ss ≤ f
    → fin.type ≡ end_of_file
    → (s : ParserState) × (new_parser in_func in_loop (stmts_tokens ss ++ (fin ∷ [])) ≡ some s)
      × Reads (parse_program f) s (program (stmts_nodes ss)) (fin ∷ [])
unfolding new_parser parse_program
parse_program-tokens in_func in_loop ss f fin wf fuel e =
    let s = started in_func in_loop (stmts_tokens ss ++ (fin ∷ [])) fin in
    let x =
      Reads-bind (statements (parse f) f) (λ ns. return (program ns)) s
        (stmts-Reads ss f f s fin [] wf fuel fuel (rw e refl)
          (λ q hq. last-at_end (goto q s) fin hq) refl)
        (λ q hq. Reads-return (goto q s) (program (stmts_nodes ss)) hq) in
    (
      s,
      rw (new_parser, get_last?-concat (stmts_tokens ss) fin) refl,
      record { stop = x.stop; result = x.result; left = x.left },
    )
