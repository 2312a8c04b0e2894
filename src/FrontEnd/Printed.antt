-- ===== src/FrontEnd/Printed.antt =====
-- lexer.cpp reads the words of a statement from what node-stringifier.cpp prints.
use weak_memory_models_simul.Prelude.{
  String, true, false, ◌∷◌, ◌++◌, ◌≡◌, refl, arith, nat_eq, string_eq,
}
use weak_memory_models_simul.Prelude.Int.{ℤ}
use weak_memory_models_simul.Prelude.Text.{◌<>◌, first_code, concat_assoc}
use weak_memory_models_simul.Lang.{MemoryOrder}
use weak_memory_models_simul.Ast.{AstNode, BinOpType}
use weak_memory_models_simul.Utils.{is_digit, is_identifier_char, get_binop, get_memory_order}
use weak_memory_models_simul.Lexer.Tokens.{TokenType}
use weak_memory_models_simul.Lexer.Keywords.{keyword_type}
use weak_memory_models_simul.Lexer.{atom_type}
use weak_memory_models_simul.Lexer.Spells.{Spells, Spells-name, Spells-blank}
use weak_memory_models_simul.Lexer.Symbols.{Spells-number, Spells-atom}
use weak_memory_models_simul.Lexer.Names.{is_name, is_name-IsName}
use weak_memory_models_simul.Parser.Parses.{Words}
use weak_memory_models_simul.Exceptions.{Checked}
use weak_memory_models_simul.Stringifier.{stringify_node}
use weak_memory_models_simul.FrontEnd.Words.{
  operator, identifier, order, location, words, Breaks, Spells-keyword, Spells-identifier,
  order-IsName, order-type, Spells-access,
}
use weak_memory_models_simul.FrontEnd.Printable.{
  IsRegister, IsLocation, IsExpression, IsPrintable, number, binop, cas_result, fai_result,
}

-- a keyword and a label, or a memory order
pub Spells-jump :
    (w label : String) (ty : TokenType) (rest rest' : String) (ws : Words)
    → is_name w ≡ true
    → keyword_type w ≡ ty
    → IsRegister label
    → Breaks rest
    → Spells rest ws rest'
    → Spells ((w <> " " <> label) <> rest) ((ty, w) ∷ identifier label ∷ ws) rest'
Spells-jump w label ty rest rest' ws n h l b r = simp concat_assoc (
    Spells-keyword w ty _ rest' _ (is_name-IsName w n) h
      (Spells-identifier label rest rest' ws l b r))

-- a keyword, a memory order, a location and a register
pub Spells-call :
    (w : String) (ty : TokenType) (o : MemoryOrder) (x l rest rest' : String) (ws : Words)
    → is_name w ≡ true
    → keyword_type w ≡ ty
    → IsLocation x
    → IsRegister l
    → Breaks rest
    → Spells rest ws rest'
    → Spells
        ((w <> " " <> get_memory_order o <> " " <> "#" <> x <> " " <> l) <> rest)
        ((ty, w) ∷ order o ∷ location x ∷ identifier l ∷ ws)
        rest'
Spells-call w ty o x l rest rest' ws n h hx hl b r = simp concat_assoc (
    Spells-keyword w ty _ rest' _ (is_name-IsName w n) h
      (Spells-access o x _ rest' _ hx (Spells-identifier l rest rest' ws hl b r)))

pub Spells-cas :
    (o : MemoryOrder) (x e d rest rest' : String) (ws : Words)
    → IsLocation x
    → IsRegister e
    → IsRegister d
    → Breaks rest
    → Spells rest ws rest'
    → Spells
        (("cas" <> " " <> get_memory_order o <> " " <> "#" <> x <> " " <> e <> " " <> d) <> rest)
        ((TokenType.cas, "cas") ∷ order o ∷ location x ∷ identifier e ∷ identifier d ∷ ws)
        rest'
unfolding keyword_type is_name is_identifier_char
Spells-cas o x e d rest rest' ws hx he hd b r = simp concat_assoc (
    Spells-keyword "cas" TokenType.cas _ rest' _ (is_name-IsName "cas" refl) refl (
      Spells-access o x _ rest' _ hx (
        Spells-identifier e _ rest' _ he refl
          (Spells-blank _ _ rest' _ refl (Spells-identifier d rest rest' ws hd b r)))))

pub Spells-fence :
    (o : MemoryOrder) (rest rest' : String) (ws : Words)
    → Breaks rest
    → Spells rest ws rest'
    → Spells
        (("fence" <> " " <> get_memory_order o) <> rest)
        ((TokenType.fence, "fence") ∷ order o ∷ ws)
        rest'
unfolding keyword_type is_name is_identifier_char
Spells-fence o rest rest' ws b r =
    Spells-keyword "fence" TokenType.fence _ rest' _ (is_name-IsName "fence" refl) refl
      (rw (← order-type o) (Spells-name (get_memory_order o) rest rest' ws (order-IsName o) b r))

pub Spells-condition :
    (w label rest rest' : String) (ws : Words)
    → IsRegister w
    → IsRegister label
    → Breaks rest
    → Spells rest ws rest'
    → Spells
        (("if" <> " " <> w <> " " <> "goto" <> " " <> label) <> rest)
        ((TokenType.condition, "if")
          ∷ identifier w
          ∷ (TokenType.goto, "goto")
          ∷ identifier label
          ∷ ws)
        rest'
unfolding keyword_type is_name is_identifier_char
Spells-condition w label rest rest' ws hw hl b r = simp concat_assoc (
    Spells-keyword "if" TokenType.condition _ rest' _ (is_name-IsName "if" refl) refl (
      Spells-keyword w TokenType.identifier _ rest' _ hw.name hw.plain (
        Spells-keyword "goto" TokenType.goto _ rest' _ (is_name-IsName "goto" refl) refl
          (Spells-identifier label rest rest' ws hl b r))))

pub Spells-operator :
    (o : BinOpType) (rest rest' : String) (ws : Words)
    → Spells rest ws rest'
    → Spells (get_binop o <> rest) ((operator o, get_binop o) ∷ ws) rest'
unfolding get_binop atom_type
Spells-operator BinOpType.plus rest rest' ws r =
    Spells-atom _ TokenType.plus rest rest' ws refl refl r
Spells-operator BinOpType.minus rest rest' ws r =
    Spells-atom _ TokenType.minus rest rest' ws refl refl r
Spells-operator BinOpType.mult rest rest' ws r =
    Spells-atom _ TokenType.mult rest rest' ws refl refl r
Spells-operator BinOpType.div rest rest' ws r =
    Spells-atom _ TokenType.div rest rest' ws refl refl r

pub Spells-binop :
    (l : String) (o : BinOpType) (d rest rest' : String) (ws : Words)
    → IsRegister l
    → IsRegister d
    → Breaks rest
    → Spells rest ws rest'
    → Spells
        ((l <> " " <> get_binop o <> " " <> d) <> rest)
        (identifier l ∷ (operator o, get_binop o) ∷ identifier d ∷ ws)
        rest'
Spells-binop l o d rest rest' ws hl hd b r = simp concat_assoc (
    Spells-keyword l TokenType.identifier _ rest' _ hl.name hl.plain (
      Spells-operator o _ rest' _
        (Spells-blank _ _ rest' _ refl (Spells-identifier d rest rest' ws hd b r))))

pub Breaks-digit : (s : String) → Breaks s → is_digit (first_code s) ≡ false
unfolding is_identifier_char is_digit
Breaks-digit s h = ground arith

module _ (to_string : ℤ → String) (stoi : String → Checked ℤ) where
  pub Spells-expression :
      (e : AstNode) (rest rest' : String) (ws : Words)
      → IsExpression to_string stoi e
      → Breaks rest
      → Spells rest ws rest'
      → Spells (stringify_node to_string e <> rest) (words to_string e ++ ws) rest'
  unfolding stringify_node words keyword_type is_name is_identifier_char
  Spells-expression _ rest rest' ws (number {n = n} v) b r =
      Spells-number _ rest rest' ws v.first v.all (Breaks-digit rest b) r
  Spells-expression _ rest rest' ws (binop {n = n} hl hd) b r =
      Spells-binop n.left_register n.operation n.right_register rest rest' ws hl hd b r
  Spells-expression _ rest rest' ws (cas_result {n = n} hx he hd) b r =
      Spells-cas n.memory_order n.location_name _ _ rest rest' ws hx he hd b r
  Spells-expression _ rest rest' ws (fai_result {n = n} hx hl) b r =
      Spells-call "fai" TokenType.fai n.memory_order n.location_name _ rest rest' ws refl refl hx hl
        b r

  -- A printed statement is read as its words, with no character of an identifier behind it.
  pub Spells-node :
      (n : AstNode) (rest rest' : String) (ws : Words)
      → IsPrintable to_string stoi n
      → Breaks rest
      → Spells rest ws rest'
      → Spells (stringify_node to_string n <> rest) (words to_string n ++ ws) rest'
  unfolding stringify_node words keyword_type is_name is_identifier_char atom_type
  Spells-node _ rest rest' ws (IsPrintable.condition {n = n} hw hl) b r =
      Spells-condition n.register_name n.goto_label rest rest' ws hw hl b r
  Spells-node _ rest rest' ws (IsPrintable.goto {n = n} hl) b r =
      Spells-jump "goto" n.goto_label TokenType.goto rest rest' ws refl refl hl b r
  Spells-node _ rest rest' ws (IsPrintable.thread_goto {n = n} hl) b r =
      Spells-jump "thread_goto" n.thread_goto_label TokenType.thread_goto rest rest' ws refl refl hl
        b r
  Spells-node _ rest rest' ws (IsPrintable.load {n = n} hx hl) b r =
      Spells-call "load" TokenType.load n.memory_order n.location_name _ rest rest' ws refl refl hx
        hl b r
  Spells-node _ rest rest' ws (IsPrintable.store {n = n} hx hl) b r =
      Spells-call "store" TokenType.store n.memory_order n.location_name _ rest rest' ws refl refl
        hx hl b r
  Spells-node _ rest rest' ws (IsPrintable.cas {n = n} hx he hd) b r =
      Spells-cas n.memory_order n.location_name _ _ rest rest' ws hx he hd b r
  Spells-node _ rest rest' ws (IsPrintable.fai {n = n} hx hl) b r =
      Spells-call "fai" TokenType.fai n.memory_order n.location_name _ rest rest' ws refl refl hx hl
        b r
  Spells-node _ rest rest' ws (IsPrintable.fence {n = n}) b r =
      Spells-fence n.memory_order rest rest' ws b r
  Spells-node _ rest rest' ws (IsPrintable.assignment {r = w} {e = e} hw he) b r =
      simp concat_assoc (
        Spells-keyword w TokenType.identifier _ rest' _ hw.name hw.plain (
          Spells-atom _ TokenType.eq _ rest' _ refl refl
            (Spells-blank _ _ rest' _ refl (Spells-expression e rest rest' ws he b r))))
