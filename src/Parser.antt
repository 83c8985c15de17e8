-- ===== src/Parser.antt =====
-- compiler/parser.hpp and parser.cpp: from tokens to the syntax tree.
pub mod State
pub mod Types
pub mod Expr
pub mod Stmt
pub mod Reads
pub mod Grammar
pub mod Marks
pub mod Climb
pub mod Operand
pub mod Arguments
pub mod Ranks
pub mod RoundTrip
pub mod Forms
pub mod Ends
pub mod Fronts
pub mod Branch
pub mod Compound
pub mod Choices
pub mod Params
pub mod Entry
pub mod Statements
pub mod Program
pub mod Stuck
pub mod Safe
pub mod SafeExpr
pub mod SafeStmt
pub mod Caught
