-- ===== src/Ast.antt =====
-- src/ast: the nodes of the syntax tree.
use weak_memory_models_simul.Prelude.{String, List}
use weak_memory_models_simul.Prelude.Int.{ℤ}
use weak_memory_models_simul.Lang.{MemoryOrder}

pub data BinOpType : Type 0 where
  plus minus mult div : BinOpType

pub record NumberNode : Type 0 where
  pub value : ℤ

pub record BinOpNode : Type 0 where
  pub left_register : String
  pub operation : BinOpType
  pub right_register : String

pub record ConditionNode : Type 0 where
  pub register_name : String
  pub goto_label : String

pub record GotoNode : Type 0 where
  pub goto_label : String

pub record ThreadGotoNode : Type 0 where
  pub thread_goto_label : String

pub record LoadNode : Type 0 where
  pub memory_order : MemoryOrder
  pub location_name : String
  pub register_name : String

pub record StoreNode : Type 0 where
  pub memory_order : MemoryOrder
  pub location_name : String
  pub register_name : String

pub record CasNode : Type 0 where
  pub memory_order : MemoryOrder
  pub location_name : String
  pub register_expected : String
  pub register_desired : String

pub record FaiNode : Type 0 where
  pub memory_order : MemoryOrder
  pub location_name : String
  pub register_name : String

pub record FenceNode : Type 0 where
  pub memory_order : MemoryOrder

-- The classes derived from AstNode; an assignment holds its register and its expression.
pub data AstNode : Type 0 where
  number : NumberNode → AstNode
  binop : BinOpNode → AstNode
  condition : ConditionNode → AstNode
  goto : GotoNode → AstNode
  thread_goto : ThreadGotoNode → AstNode
  load : LoadNode → AstNode
  store : StoreNode → AstNode
  cas : CasNode → AstNode
  fai : FaiNode → AstNode
  fence : FenceNode → AstNode
  assignment : String → AstNode → AstNode
  end : AstNode

-- The label is empty where there is none.
pub record StatementNode : Type 0 where
  pub statement : AstNode
  pub label : String

pub record ProgramNode : Type 0 where
  pub statements : List StatementNode
