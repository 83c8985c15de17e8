-- ===== src/Generator.antt =====
-- compiler/generator/generator.hpp and generator.cpp: from the tree to instructions.
-- `State` is the object, `Expr`, `Call` and `Stmt` hold one function for each `gen_…`, with the
-- generation of the children as arguments, and `Tree` ties them over the syntax tree.
pub mod State
pub mod Expr
pub mod Call
pub mod Stmt
pub mod Tree
pub mod Keeps
pub mod Listing
pub mod Use
pub mod Arith
