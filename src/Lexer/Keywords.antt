-- ===== src/Lexer/Keywords.antt =====
-- src/lang/keywords.h, and the kinds that lexer.cpp gives to words.
use weak_memory_models_simul.Prelude.{String, ◌||◌, if◌then◌else◌, ◌==◌, string_eq}
use weak_memory_models_simul.Lexer.Tokens.{TokenType}

unfoldable pub keyword_type : String → TokenType
keyword_type lexeme =
    if lexeme == "if"
    then TokenType.condition
    else if lexeme == "goto"
    then TokenType.goto
    else if lexeme == "thread_goto"
    then TokenType.thread_goto
    else if lexeme == "SEQ_CST"
        || lexeme == "REL"
        || lexeme == "ACQ"
        || lexeme == "REL_ACQ"
        || lexeme == "RLX"
    then TokenType.memory_order
    else if lexeme == "load"
    then TokenType.load
    else if lexeme == "store"
    then TokenType.store
    else if lexeme == "cas"
    then TokenType.cas
    else if lexeme == "fai"
    then TokenType.fai
    else if lexeme == "fence"
    then TokenType.fence
    else TokenType.identifier
