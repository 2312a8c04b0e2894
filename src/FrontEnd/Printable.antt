-- ===== src/FrontEnd/Printable.antt =====
-- The statements that node-stringifier.cpp prints so that lexer.cpp reads their words back.
use weak_memory_models_simul.Prelude.{String, true, ◌≡◌, nat_eq, string_eq}
use weak_memory_models_simul.Prelude.Result.{ok}
use weak_memory_models_simul.Prelude.Int.{ℤ}
use weak_memory_models_simul.Prelude.Text.{first_code}
use weak_memory_models_simul.Ast.{
  AstNode, BinOpNode, CasNode, FaiNode, NumberNode, ConditionNode, GotoNode, ThreadGotoNode,
  LoadNode, StoreNode, FenceNode,
}
use weak_memory_models_simul.Utils.{is_digit, is_identifier_char}
use weak_memory_models_simul.Lexer.Tokens.{TokenType}
use weak_memory_models_simul.Lexer.Keywords.{keyword_type}
use weak_memory_models_simul.Lexer.Names.{AllChars, IsName}
use weak_memory_models_simul.Exceptions.{Checked}

-- the name of a register or label: no keyword, and it does not start with a digit
pub record IsRegister (w : String) : Type 0 where
  pub name : IsName w
  pub plain : keyword_type w ≡ TokenType.identifier

pub record IsLocation (x : String) : Type 0 where
  pub first : is_identifier_char (first_code x) ≡ true
  pub all : AllChars is_identifier_char x

module _ (to_string : ℤ → String) (stoi : String → Checked ℤ) where
  -- The library writes the number in digits, and reads it back from them: one that is not negative.
  pub record IsNumeral (v : ℤ) : Type 0 where
    pub first : is_digit (first_code (to_string v)) ≡ true
    pub all : AllChars is_digit (to_string v)
    pub inverse : stoi (to_string v) ≡ ok v

  -- what an assignment can have behind its equals sign
  pub data IsExpression : AstNode → Type 0 where
    number : {n : NumberNode} → IsNumeral n.value → IsExpression (AstNode.number n)
    binop :
        {n : BinOpNode}
        → IsRegister n.left_register
        → IsRegister n.right_register
        → IsExpression (AstNode.binop n)
    cas_result :
        {n : CasNode}
        → IsLocation n.location_name
        → IsRegister n.register_expected
        → IsRegister n.register_desired
        → IsExpression (AstNode.cas n)
    fai_result :
        {n : FaiNode}
        → IsLocation n.location_name
        → IsRegister n.register_name
        → IsExpression (AstNode.fai n)

  -- the statements, but for the end of the program, which has no text of its own
  pub data IsPrintable : AstNode → Type 0 where
    condition :
        {n : ConditionNode}
        → IsRegister n.register_name
        → IsRegister n.goto_label
        → IsPrintable (AstNode.condition n)
    goto : {n : GotoNode} → IsRegister n.goto_label → IsPrintable (AstNode.goto n)
    thread_goto :
        {n : ThreadGotoNode} → IsRegister n.thread_goto_label → IsPrintable (AstNode.thread_goto n)
    load :
        {n : LoadNode}
        → IsLocation n.location_name
        → IsRegister n.register_name
        → IsPrintable (AstNode.load n)
    store :
        {n : StoreNode}
        → IsLocation n.location_name
        → IsRegister n.register_name
        → IsPrintable (AstNode.store n)
    cas :
        {n : CasNode}
        → IsLocation n.location_name
        → IsRegister n.register_expected
        → IsRegister n.register_desired
        → IsPrintable (AstNode.cas n)
    fai :
        {n : FaiNode}
        → IsLocation n.location_name
        → IsRegister n.register_name
        → IsPrintable (AstNode.fai n)
    fence : {n : FenceNode} → IsPrintable (AstNode.fence n)
    assignment :
        {r : String} {e : AstNode}
        → IsRegister r
        → IsExpression e
        → IsPrintable (AstNode.assignment r e)
