-- ===== src/Parser/SafeStmt.antt =====
-- compiler/parser.cpp: what the functions that read statements keep.
use mylamina.Base.{
  ℕ, zero, suc, Bool, true, false, List, Option, none, some, Text, get_elem?, ◌+◌, ◌≡◌, refl,
  if◌then◌else◌,
}
use mathlib.Core.Path.{subst}
use mylamina.Lexer.{TokenType}
use mylamina.Ast.{Node, TypeNode}
use mylamina.Parser.State.{
  ParserState, ParseError, Parsing, Parse, parsed, thrown, stopped, undefined, no_fuel, peek_match,
  same_type, text, advance, return, ◌>>=◌, ◌>>◌,
}
use mylamina.Parser.Expr.{parse_expr}
use mylamina.Parser.Stmt.{
  statements, parse_block, parse_if, params_loop, func_tail, parse_func_decl, Members, add_member,
  members, set_in_module, set_in_func, set_in_loop, parse_module, parse_return, parse_loop,
  in_loop_only, parse_default, parse_let, dispatch, caught, parse, parse_program,
}
use mylamina.Parser.Safe.{
  Safe, Safe-return, Safe-error, Safe-no_fuel, Safe-undefined, advance-Safe, safe, Later,
}
use mylamina.Parser.SafeExpr.{IsSafe, parse_string-Safe, check_type-Safe, parse_expr-Safe}

set_in_module-Safe : (b : Bool) → IsSafe (set_in_module b)
set_in_module-Safe b s = record {
  fine = record { same = refl; within = λ h. h; quiet = λ h. (h, refl) };
}

set_in_func-Safe : (b : Bool) → IsSafe (set_in_func b)
set_in_func-Safe b s = record {
  fine = record { same = refl; within = λ h. h; quiet = λ h. (h, refl) };
}

set_in_loop-Safe : (b : Bool) → IsSafe (set_in_loop b)
set_in_loop-Safe b s = record {
  fine = record { same = refl; within = λ h. h; quiet = λ h. (h, refl) };
}

ruleset moves =
    (safe, set_in_module-Safe, set_in_func-Safe, set_in_loop-Safe, parse_string-Safe, advance-Safe)

peek_match-Safe : (t : TokenType) → IsSafe (peek_match t)
peek_match-Safe t s =
    elim (get_elem? s.tokens (s.pos + 1))
      as (λ x.
        Safe
          (elim x as (λ _. Parsing Bool) [
            | none ↦ undefined
            | some u ↦ parsed (same_type u.type t) s
          ])
          s) [ none ↦ Safe-undefined s | some u ↦ Safe-return _ s ]

module _ (p : Parse Node) (h : IsSafe p) where
  statements-Safe : (k : ℕ) → IsSafe (statements p k)
  unfolding statements
  statements-Safe zero s = Safe-no_fuel s
  statements-Safe (suc k) s = search (safe, h, statements-Safe k) depth 14

  parse_block-Safe : (k : ℕ) → IsSafe (parse_block p k)
  unfolding parse_block
  parse_block-Safe k s = search (moves, statements-Safe k) depth 14

  parse_if-Safe : (k d : ℕ) → IsSafe (parse_if p k d)
  unfolding parse_if
  parse_if-Safe k zero s = Safe-no_fuel s
  parse_if-Safe k (suc d) s =
      search (moves, parse_if-Safe k d, parse_block-Safe k, parse_expr-Safe k) depth 24

  params_loop-Safe : (k : ℕ) → IsSafe (params_loop k)
  unfolding params_loop
  params_loop-Safe zero s = Safe-no_fuel s
  params_loop-Safe (suc k) s = search (moves, params_loop-Safe k, check_type-Safe k) depth 14

  func_tail-Safe :
      (k : ℕ) (name : Text) (params : List Text) (types : List TypeNode) (ret : Option TypeNode)
      → IsSafe (func_tail p k name params types ret)
  unfolding func_tail
  func_tail-Safe k name params types ret s =
      search (moves, parse_block-Safe k, check_type-Safe k) depth 14

  parse_func_decl-Safe : (k : ℕ) → IsSafe (parse_func_decl p k)
  unfolding parse_func_decl
  parse_func_decl-Safe k s =
      search (moves, params_loop-Safe k, check_type-Safe k, func_tail-Safe k) depth 14

  add_member-Safe : (n : Node) (m : Members) → IsSafe (add_member n m)
  unfolding add_member
  add_member-Safe Node.null_node m s = Safe-undefined s
  add_member-Safe (Node.var_decl _ _ _) m s = Safe-return _ s
  add_member-Safe (Node.func_decl _ _ _ _ _) m s = Safe-return _ s
  add_member-Safe (Node.extern_func _) m s = Safe-return _ s
  add_member-Safe (Node.module_node _ _ _ _ _ _ _) m s = Safe-return _ s
  add_member-Safe (Node.func_call_expr _ _) m s = Safe-error _ s
  add_member-Safe (Node.program _) m s = Safe-error _ s
  add_member-Safe (Node.binary _ _ _) m s = Safe-error _ s
  add_member-Safe (Node.unary _ _) m s = Safe-error _ s
  add_member-Safe (Node.num_literal _) m s = Safe-error _ s
  add_member-Safe (Node.string_literal _) m s = Safe-error _ s
  add_member-Safe (Node.bool_literal _) m s = Safe-error _ s
  add_member-Safe (Node.block_stmt _) m s = Safe-error _ s
  add_member-Safe (Node.if_stmt _ _ _) m s = Safe-error _ s
  add_member-Safe (Node.var_ref _) m s = Safe-error _ s
  add_member-Safe (Node.return_stmt _) m s = Safe-error _ s
  add_member-Safe (Node.vm_call _ _) m s = Safe-error _ s
  add_member-Safe (Node.use_node _) m s = Safe-error _ s
  add_member-Safe (Node.loop_node _ _) m s = Safe-error _ s
  add_member-Safe Node.break_node m s = Safe-error _ s
  add_member-Safe Node.continue_node m s = Safe-error _ s

  members-Safe : (k : ℕ) → IsSafe (members p k)
  unfolding members
  members-Safe zero s = Safe-no_fuel s
  members-Safe (suc k) s = search (safe, h, add_member-Safe, members-Safe k) depth 14

  parse_module-Safe : (k : ℕ) → IsSafe (parse_module p k)
  unfolding parse_module
  parse_module-Safe k s = search (moves, members-Safe k) depth 24

  parse_loop-Safe : (k : ℕ) → IsSafe (parse_loop p k)
  unfolding parse_loop
  parse_loop-Safe k s = search (moves, parse_block-Safe k, parse_expr-Safe k) depth 14

  parse_return-Safe : (k : ℕ) → IsSafe (parse_return k)
  unfolding parse_return
  parse_return-Safe k s = search (moves, parse_expr-Safe k) depth 14

  parse_let-Safe : (k : ℕ) → IsSafe (parse_let k)
  unfolding parse_let
  parse_let-Safe k s = search (moves, parse_expr-Safe k) depth 14

  choose-Safe : (b : Bool) (x y : Parse Node) → IsSafe x → IsSafe y → IsSafe (if b then x else y)
  choose-Safe true x y p q = p
  choose-Safe false x y p q = q

  assignment-Safe :
      (k : ℕ)
      → IsSafe
          (do name ← text; advance; advance; v ← parse_expr k; return (Node.var_decl name v true))
  assignment-Safe k s = search (safe, parse_expr-Safe k, advance-Safe) depth 14

  parse_default-Safe : (k : ℕ) → IsSafe (parse_default k)
  unfolding parse_default
  parse_default-Safe k s =
      search (safe, peek_match-Safe, choose-Safe, assignment-Safe k, parse_expr-Safe k) depth 14

  in_loop_only-Safe : (e : ParseError) (n : Node) → IsSafe (in_loop_only e n)
  unfolding in_loop_only
  in_loop_only-Safe e n s = search moves depth 14

  dispatch-Safe : (k : ℕ) → IsSafe (dispatch p k)
  unfolding dispatch
  dispatch-Safe k s =
      search
        (
          moves,
          parse_let-Safe k,
          parse_func_decl-Safe k,
          parse_return-Safe k,
          parse_loop-Safe k,
          in_loop_only-Safe,
          parse_if-Safe k k,
          parse_module-Safe k,
          parse_default-Safe k,
        )
        depth 24

-- An error that is caught leaves a message behind `has_err`.
caught-Safe : (x : Parsing Node) (s : ParserState) → Safe x s → Safe (caught x) s
caught-Safe (parsed a t) s h = h
caught-Safe (thrown e t) s h = record {
  fine = record {
    same = h.fine.0.same;
    within = h.fine.0.within;
    quiet = λ q. let set = h.fine.1 in cc;
  };
}
caught-Safe stopped s h = h
caught-Safe undefined s h = h
caught-Safe no_fuel s h = h

parse-Safe : (f : ℕ) → IsSafe (parse f)
unfolding parse
parse-Safe zero s = Safe-no_fuel s
parse-Safe (suc f) s =
    let d = dispatch-Safe (parse f) (parse-Safe f) f in
    caught-Safe _ s (search (safe, d, advance-Safe) depth 14)

parse_program-Safe : (f : ℕ) → IsSafe (parse_program f)
unfolding parse_program
parse_program-Safe f s = search (safe, statements-Safe (parse f) (parse-Safe f) f) depth 14

-- A run of the parser that comes to an end leaves the tokens as they are and does not stand behind
-- them; and if `has_err` is false at the end, it was false at the start and nothing was printed.
pub parse_program-Later :
    (f : ℕ) (s t : ParserState) (n : Node) → parse_program f s ≡ parsed n t → Later s t
parse_program-Later f s t n h = (subst (λ x. Safe x s) h (parse_program-Safe f s)).fine
