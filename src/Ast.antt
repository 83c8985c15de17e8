-- ===== src/Ast.antt =====
-- compiler/ast.hpp: the syntax tree. `null_node` is a null `shared_ptr`, which the parser stores
-- where a part is missing. A vector of nodes is `Nodes`, a type of the same block.
use mylamina.Base.{ℕ, suc, Bool, List, Option, Text}

mutual
  -- `TypeNode` and `CompositeTypeNode`
  pub data TypeNode : Type 0 where
    basic_type : Text → TypeNode
    composite_type : Text → TypeNodes → TypeNode

  pub data TypeNodes : Type 0 where
    no_types : TypeNodes
    one_more : TypeNode → TypeNodes → TypeNodes

-- `node->name`
abbrev pub type_name : TypeNode → Text
type_name (basic_type n) = n
type_name (composite_type n ts) = n

-- `ExternFuncNode`
pub record ExternFunc : Type 0 where
  pub name : Text
  pub args : List Text
  pub args_type : List TypeNode
  pub ret_type : Option TypeNode
  pub extern_label : Text

mutual
  pub data Node : Type 0 where
    null_node : Node
    program : Nodes → Node
    binary : Node → Node → Text → Node
    unary : Text → Node → Node
    num_literal : Text → Node
    string_literal : Text → Node
    bool_literal : Bool → Node
    block_stmt : Nodes → Node
    if_stmt : Node → Node → Node → Node
    var_decl : Text → Node → Bool → Node
    var_ref : Text → Node
    func_decl : Text → List Text → List TypeNode → Option TypeNode → Node → Node
    func_call_expr : Text → Nodes → Node
    return_stmt : Node → Node
    vm_call : Text → Nodes → Node
    -- name, whether `type` is `dyn`, `lib`, `vars`, `ord`, `dyn`, `chd`
    module_node : Text → Bool → Option Text → Nodes → Nodes → List ExternFunc → Nodes → Node
    use_node : Text → Node
    extern_func : ExternFunc → Node
    loop_node : Node → Node → Node
    break_node : Node
    continue_node : Node

  pub data Nodes : Type 0 where
    nil : Nodes
    cons : Node → Nodes → Nodes

abbrev pub size : Nodes → ℕ
size nil = 0
size (cons n ns) = suc (size ns)

-- `if (ptr)`
abbrev pub is_null : Node → Bool
is_null null_node = Bool.true
is_null _ = Bool.false

abbrev pub is_block : Node → Bool
is_block (block_stmt ns) = Bool.true
is_block _ = Bool.false
