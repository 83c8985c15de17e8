-- ===== src/Generator/Use.antt =====
-- compiler/common.hpp, `compile`, and compiler/generator/generator.cpp, `gen_use`: another file is
-- compiled into the same program. The files are their bytes by their paths; `rounds` bounds the
-- parser, and `depth` the files that use one another, which in C++ end in a stack overflow. A parse
-- without an error leaves the `static` flags of the parser false.
use mylamina.Base.{
  ℕ, zero, suc, Bool, true, false, ◌||◌, List, [], ◌∷◌, Option, none, some, if◌then◌else◌, Text,
  lookup,
}
use mylamina.Lexer.Next.{Tokens, tokenize}
use mylamina.Ast.{Node, null_node, is_null}
use mylamina.Parser.State.{
  ParserState, Parsing, parsed, thrown, stopped, undefined, no_fuel, new_parser,
}
use mylamina.Parser.Stmt.{parse_program}
use mylamina.Generator.State.{Gen}
use mylamina.Generator.Tree.{sub_gen}
use mylamina.Generator.Keeps.{KeepsAll, Keeps-crash}
use mylamina.Generator.Keeps.Tree.{sub_gen-KeepsAll}

-- `read_file(path)`: empty for a file that cannot be opened.
unfoldable pub read_file : List (Text × List ℕ) → Text → Text
read_file files path = elim (lookup path files) [ none ↦ [] | some code ↦ code ]

-- `parser.parse_program()` has come to its end; `none` is a crash or no end.
unfoldable pub parsed_tree : Parsing Node → Option Node
parsed_tree (parsed n t) = some (if is_null n || t.has_err then null_node else n)
parsed_tree (thrown e t) = none
parsed_tree stopped = none
parsed_tree undefined = none
parsed_tree no_fuel = none

unfoldable pub parsing_tree : ℕ → Option ParserState → Option Node
unfolding parsed_tree
parsing_tree rounds none = none
parsing_tree rounds (some s) = parsed_tree (parse_program rounds s)

unfoldable pub lexed_tree : ℕ → Tokens × Bool → Option Node
unfolding parsing_tree
lexed_tree rounds (Tokens.done ts p, true) = some null_node
lexed_tree rounds (Tokens.done ts p, false) = parsing_tree rounds (new_parser false false ts)
lexed_tree rounds (Tokens.out_of_bounds, bad) = none
lexed_tree rounds (Tokens.out_of_fuel, bad) = none

unfoldable pub compile_code : ℕ → Text → Option Node
unfolding lexed_tree
compile_code rounds [] = some null_node
compile_code rounds (x ∷ xs) = lexed_tree rounds (tokenize (x ∷ xs) 1)

-- `compile(path)`; the null pointer is the tree `null_node`.
unfoldable pub compile : ℕ → List (Text × List ℕ) → Text → Option Node
unfolding compile_code read_file
compile rounds files path = compile_code rounds (read_file files path)

abbrev gen_tree : (Text → Gen ℕ) → Option Node → Gen ℕ
gen_tree c none g = none
gen_tree c (some n) g = sub_gen c n g

-- `gen_use`, whose result `sub_gen` does not use.
unfoldable pub gen_use : ℕ → ℕ → List (Text × List ℕ) → Text → Gen ℕ
gen_use zero rounds files path g = none
gen_use (suc depth) rounds files path g =
    gen_tree (gen_use depth rounds files) (compile rounds files path) g

gen_tree-KeepsAll :
    (c : Text → Gen ℕ)
    → ((path : Text) → KeepsAll (c path))
    → (n : Option Node) → KeepsAll (gen_tree c n)
gen_tree-KeepsAll c k none g h = Keeps-crash
gen_tree-KeepsAll c k (some n) g h = sub_gen-KeepsAll c k n g h

-- Files that are compiled into a program of emitted instructions leave such a program.
pub gen_use-KeepsAll :
    (depth rounds : ℕ) (files : List (Text × List ℕ)) (path : Text)
    → KeepsAll (gen_use depth rounds files path)
unfolding gen_use
gen_use-KeepsAll zero rounds files path g h = Keeps-crash
gen_use-KeepsAll (suc depth) rounds files path g h =
    gen_tree-KeepsAll (gen_use depth rounds files) (gen_use-KeepsAll depth rounds files)
      (compile rounds files path) g h
