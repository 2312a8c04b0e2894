-- ===== src/Stringifier.antt =====
-- src/utils/node-stringifier/node-stringifier.cpp: a node of the syntax tree as text. The stream is
-- the text written; `to_string` is how the library writes an int to it.
use weak_memory_models_simul.Prelude.{String, if◌then◌else◌, ◌==◌, string_eq}
use weak_memory_models_simul.Prelude.Int.{ℤ}
use weak_memory_models_simul.Prelude.Text.{◌<>◌}
use weak_memory_models_simul.Ast.{AstNode, StatementNode}
use weak_memory_models_simul.Utils.{get_binop, get_memory_order}

module _ (to_string : ℤ → String) where
  unfoldable pub stringify_node : AstNode → String
  unfolding get_binop get_memory_order
  stringify_node (AstNode.number n) = to_string n.value
  stringify_node (AstNode.binop n) =
      n.left_register <> " " <> get_binop n.operation <> " " <> n.right_register
  stringify_node (AstNode.condition n) =
      "if" <> " " <> n.register_name <> " " <> "goto" <> " " <> n.goto_label
  stringify_node (AstNode.goto n) = "goto" <> " " <> n.goto_label
  stringify_node (AstNode.thread_goto n) = "thread_goto" <> " " <> n.thread_goto_label
  stringify_node (AstNode.load n) =
      "load"
      <> " "
      <> get_memory_order n.memory_order
      <> " "
      <> "#"
      <> n.location_name
      <> " "
      <> n.register_name
  stringify_node (AstNode.store n) =
      "store"
      <> " "
      <> get_memory_order n.memory_order
      <> " "
      <> "#"
      <> n.location_name
      <> " "
      <> n.register_name
  stringify_node (AstNode.cas n) =
      "cas"
      <> " "
      <> get_memory_order n.memory_order
      <> " "
      <> "#"
      <> n.location_name
      <> " "
      <> n.register_expected
      <> " "
      <> n.register_desired
  stringify_node (AstNode.fai n) =
      "fai"
      <> " "
      <> get_memory_order n.memory_order
      <> " "
      <> "#"
      <> n.location_name
      <> " "
      <> n.register_name
  stringify_node (AstNode.fence n) = "fence" <> " " <> get_memory_order n.memory_order
  stringify_node (AstNode.assignment r expr) = r <> " = " <> stringify_node expr
  stringify_node AstNode.end = "end"

  -- `stringify` of a statement
  unfoldable pub stringify : StatementNode → String
  unfolding stringify_node
  stringify n = (if n.label == "" then "" else n.label <> ": ") <> stringify_node n.statement
