-- ===== src/Parser/Types.antt =====
-- compiler/parser.cpp: `parse_type` and the macro `check_type`.
use mylamina.Base.{ℕ, zero, suc, Option, none, some}
use mylamina.Lexer.{identifier, lbrack, rbrack, comma, colon}
use mylamina.Ast.{TypeNode, basic_type, composite_type, TypeNodes, no_types, one_more}
use mylamina.Parser.State.{
  Parse, ◌>>=◌, ◌>>◌, return, error, advance, text, on, require, no_fuel, expected_identifier,
  expected_comma,
}

-- The loop over the parts of a composite type, without its closing bracket.
unfoldable pub type_parts : Parse TypeNode → ℕ → Parse TypeNodes
type_parts part zero s = no_fuel
type_parts part (suc k) s =
    let rest = type_parts part k in
    ((do
      t ← part
      on rbrack (return (one_more t no_types))
          (on comma (do advance; ts ← rest; return (one_more t ts)) (error expected_comma)))
      s)

-- `parse_type`
unfoldable pub parse_type : ℕ → Parse TypeNode
unfolding type_parts
parse_type zero s = no_fuel
parse_type (suc f) s =
    let parts = type_parts (parse_type f) f in
    ((do
      require identifier expected_identifier
      basic ← text
      advance
      on lbrack (do advance; others ← parts; advance; return (composite_type basic others))
          (return (basic_type basic)))
      s)

-- `check_type(op)`: the type behind a colon, if there is one.
unfoldable pub check_type : ℕ → Parse (Option TypeNode)
check_type f = on colon (do advance; t ← parse_type f; return (some t)) (return none)
