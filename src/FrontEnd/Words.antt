-- ===== src/FrontEnd/Words.antt =====
-- The words of a statement: lexer.cpp reads them from what node-stringifier.cpp prints.
use weak_memory_models_simul.Prelude.{String, false, [], ◌∷◌, ◌≡◌, refl, nat_eq, string_eq}
use weak_memory_models_simul.Prelude.Int.{ℤ}
use weak_memory_models_simul.Prelude.Text.{◌<>◌, first_code}
use weak_memory_models_simul.Lang.{
  MemoryOrder, sequentially_consistent, release, acquire, release_acquire, relaxed,
}
use weak_memory_models_simul.Ast.{AstNode, BinOpType}
use weak_memory_models_simul.Utils.{is_digit, is_identifier_char, get_binop, get_memory_order}
use weak_memory_models_simul.Lexer.Tokens.{TokenType}
use weak_memory_models_simul.Lexer.Keywords.{keyword_type}
use weak_memory_models_simul.Lexer.Spells.{Spells, Spells-name, Spells-blank}
use weak_memory_models_simul.Lexer.Symbols.{Spells-location}
use weak_memory_models_simul.Lexer.Names.{IsName, is_name, is_name-IsName}
use weak_memory_models_simul.Parser.Parses.{Words}
use weak_memory_models_simul.FrontEnd.Printable.{IsRegister, IsLocation}

abbrev pub operator : BinOpType → TokenType
operator BinOpType.plus = TokenType.plus
operator BinOpType.minus = TokenType.minus
operator BinOpType.mult = TokenType.mult
operator BinOpType.div = TokenType.div

abbrev pub identifier : String → TokenType × String
identifier w = (TokenType.identifier, w)

abbrev pub order : MemoryOrder → TokenType × String
order o = (TokenType.memory_order, get_memory_order o)

abbrev pub location : String → TokenType × String
location x = (TokenType.location, x)

unfoldable pub words : (ℤ → String) → AstNode → Words
words to_string (AstNode.number n) = (TokenType.number, to_string n.value) ∷ []
words to_string (AstNode.binop n) =
    identifier n.left_register
    ∷ (operator n.operation, get_binop n.operation)
    ∷ identifier n.right_register
    ∷ []
words to_string (AstNode.condition n) =
    (TokenType.condition, "if")
    ∷ identifier n.register_name
    ∷ (TokenType.goto, "goto")
    ∷ identifier n.goto_label
    ∷ []
words to_string (AstNode.goto n) = (TokenType.goto, "goto") ∷ identifier n.goto_label ∷ []
words to_string (AstNode.thread_goto n) =
    (TokenType.thread_goto, "thread_goto") ∷ identifier n.thread_goto_label ∷ []
words to_string (AstNode.load n) =
    (TokenType.load, "load")
    ∷ order n.memory_order
    ∷ location n.location_name
    ∷ identifier n.register_name
    ∷ []
words to_string (AstNode.store n) =
    (TokenType.store, "store")
    ∷ order n.memory_order
    ∷ location n.location_name
    ∷ identifier n.register_name
    ∷ []
words to_string (AstNode.cas n) =
    (TokenType.cas, "cas")
    ∷ order n.memory_order
    ∷ location n.location_name
    ∷ identifier n.register_expected
    ∷ identifier n.register_desired
    ∷ []
words to_string (AstNode.fai n) =
    (TokenType.fai, "fai")
    ∷ order n.memory_order
    ∷ location n.location_name
    ∷ identifier n.register_name
    ∷ []
words to_string (AstNode.fence n) = (TokenType.fence, "fence") ∷ order n.memory_order ∷ []
words to_string (AstNode.assignment r e) = identifier r ∷ (TokenType.eq, "=") ∷ words to_string e
words to_string AstNode.end = []

-- no character of an identifier follows
abbrev pub Breaks : String → Type 0
Breaks s = is_identifier_char (first_code s) ≡ false

-- a word and the blank behind it
pub Spells-keyword :
    (w : String) (ty : TokenType) (rest rest' : String) (ws : Words)
    → IsName w
    → keyword_type w ≡ ty
    → Spells rest ws rest'
    → Spells (w <> (" " <> rest)) ((ty, w) ∷ ws) rest'
unfolding is_identifier_char is_digit
Spells-keyword w ty rest rest' ws n h r =
    rw (← h) (Spells-name w (" " <> rest) rest' ws n refl (Spells-blank _ rest rest' ws refl r))

pub Spells-identifier :
    (w rest rest' : String) (ws : Words)
    → IsRegister w
    → Breaks rest
    → Spells rest ws rest'
    → Spells (w <> rest) (identifier w ∷ ws) rest'
Spells-identifier w rest rest' ws n h r = rw (← n.plain) (Spells-name w rest rest' ws n.name h r)

pub order-IsName : (o : MemoryOrder) → IsName (get_memory_order o)
unfolding get_memory_order is_name is_identifier_char
order-IsName sequentially_consistent = is_name-IsName "SEQ_CST" refl
order-IsName release = is_name-IsName "REL" refl
order-IsName acquire = is_name-IsName "ACQ" refl
order-IsName release_acquire = is_name-IsName "REL_ACQ" refl
order-IsName relaxed = is_name-IsName "RLX" refl

pub order-type : (o : MemoryOrder) → keyword_type (get_memory_order o) ≡ TokenType.memory_order
unfolding get_memory_order keyword_type
order-type sequentially_consistent = refl
order-type release = refl
order-type acquire = refl
order-type release_acquire = refl
order-type relaxed = refl

-- an operation's memory order and location
pub Spells-access :
    (o : MemoryOrder) (x rest rest' : String) (ws : Words)
    → IsLocation x
    → Spells rest ws rest'
    → Spells
        (get_memory_order o <> (" " <> ("#" <> (x <> (" " <> rest)))))
        (order o ∷ location x ∷ ws)
        rest'
unfolding is_identifier_char is_digit
Spells-access o x rest rest' ws h r =
    Spells-keyword (get_memory_order o) TokenType.memory_order _ rest' _ (order-IsName o)
      (order-type o)
      (Spells-location x (" " <> rest) rest' ws h.first h.all refl
        (Spells-blank _ rest rest' ws refl r))
