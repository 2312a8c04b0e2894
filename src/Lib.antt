-- ===== src/Lib.antt =====
-- A simulator of weak memory models: programs of a small language with threads run under one of
-- four memory models, in one execution, random or chosen by the user, or in all of them.
--
-- The parts and their files (paths from the repository's root, without the leading src/):
-- * Lang (src/lang/memory-order.h): the access modes.
-- * Storage.Interface (src/storage-subsystem/storage-subsystem.h): the interface of the memory
--   models, a record of functions over a type of states; Storage.Access: sequences of its calls.
-- * Storage.Sc, Storage.Tso, Storage.Pso, Storage.Sra (src/storage-subsystem/sc, tso, pso, sra): the
--   four memory models. The C++ classes' fields are the records' fields, and each method is the
--   function of that name. The theorems on a model stand in the modules below it.
-- * Lexer, Utils (src/lexer, src/lang/keywords.h, src/utils/utils.cpp): from the text of a program
--   to tokens. Ast, Parsing, Parser (src/ast, src/parser): syntax trees, and the parser, which turns
--   tokens into a tree and a table of labels. Stringifier (src/utils/node-stringifier): statements
--   as text. FrontEnd (src/main.cpp): the lexer and the parser together.
-- * ArgsParser (src/args-parser), FileReader (src/file-reader), Main (src/main.cpp): the options, the
--   program's file, and the whole process, which chooses an interpreter and a memory model.
-- * Threads (src/thread-subsystem): a thread's registers. State (src/state): the state of a run.
-- * Interpreter (src/interpreter/interpreter.cpp): the effect of an instruction on a state, through
--   the memory model. Interpreter.ModelChecking (src/interpreter/model-checking and
--   src/utils/node-evaluator): the search through all executions. Interpreter.NonDeterministic
--   (src/interpreter/non-deterministic): one random execution. Interactive
--   (src/interpreter/interactive): one execution, whose choices the lines of the input make.
--   Tracing (src/interpreter/tracing): the random execution with its output.
-- * Safety (src/interpreter, src/state): what holds of every state of a run, for any memory model that
--   satisfies the interface Safety.Lawful, and for the programs of the front end.
-- * Exceptions (src/exceptions): the ways to fail; Exceptions.Messages: their texts. Prelude: numbers,
--   maps, results.
--
-- How the code is read. A mutating method returns the new state, and one that can throw, fail an
-- assertion or be undefined returns a result. std::map and std::unordered_map are association lists
-- without repeated keys; a std::map is kept in order, and the iteration order of a
-- std::unordered_map is a parameter (HashOrder) known only to be an arrangement of the keys. Values
-- are 32-bit integers: an overflow or a division by zero is undefined behaviour. Thread ids, time
-- stamps and instruction indices are unbounded. A text is a sequence of characters that stand for
-- bytes. std::stoi, how an int is written, what a stream extracts, the random numbers, the files and
-- the input are parameters.
--
-- Fuel. The model checker's loop takes the number of its rounds, since a program may run for ever;
-- on a finite search as many rounds as it has states are enough. The random execution takes the
-- random numbers of each round, and the interactive one the number of its rounds. The loops of
-- the file reader, the lexer and the parser take the number of their rounds: one more than the text
-- has characters is enough.
--
-- Not modelled: the texts that are printed, but for the stringifier's and the messages of the
-- exceptions, and what is printed before an exception; errors in reading a file that could be opened.
pub mod Prelude
pub mod Lang
pub mod Lexer
pub mod Utils
pub mod Stringifier
pub mod Exceptions
pub mod Storage
pub mod Ast
pub mod Threads
pub mod State
pub mod Interactive
pub mod Tracing
pub mod ArgsParser
pub mod FileReader
pub mod Interpreter
pub mod Parsing
pub mod Parser
pub mod FrontEnd
pub mod Safety
pub mod Main
