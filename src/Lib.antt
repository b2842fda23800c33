-- ===== src/Lib.antt =====
-- Pudl: a compiler from a small imperative language to LLVM IR. This library models its front end,
-- from the bytes of a file to the syntax tree, the visitors that generate code, and the driver around
-- them, from the command line to the programs that it runs.
--
-- The program. `main` (src/main.cpp) reads the options (CLIManager), opens a file and gives it to
-- `Parser::parse`, which makes a `Lexer` and calls `Lexer::lex` for one token after another, by
-- recursive descent, with one token in hand and at most one token pushed back (`Lexer::unlex`). The
-- parser checks types while it builds the tree, in `scope` (the variables of the function at hand) and
-- `funcs` (the functions so far), and the visitors of src/Parser/Codegen.h and src/Parser/Printer.h
-- walk the tree afterwards. If nothing failed, `main` lets the code generator compile, link
-- (`Linker::Link`) or run the result (`Process::Run`).
--
-- The files.
--   Prelude        shared names, byte strings, tests on numbers, `std::map` as an association list with
--                  `insert` that keeps an old entry and `operator[]` that makes a null one.
--   Token          src/Lexer/Token.h, src/Lexer/Token.cpp: token types, tokens, `Token::showType`.
--   Ast            src/Compiler/Type.h, src/Parser/AST/AST.h, src/Parser/AST/AST.cpp: the nodes as data
--                  types with the type that each constructor sets, and the operator functions.
--                  Ast/Visitor has src/Parser/AST/ASTVisitor.h as a record of methods, and `accept`.
--   Lexer          src/Lexer/Lexer.h, src/Lexer/Lexer.cpp: the state is the bytes still to be read, the
--                  line, the column and the saved token. Lexer/Chars has the loops over characters,
--                  Lexer the tokens, `lex` and `unlex`.
--   Parser         src/Parser/Parser.h, src/Parser/Parser.cpp: Parser/State has the members of the
--                  class, `next`, `is`, `error`, and a monad in which a method returns a value or NULL
--                  and changes the state; Parser/Expression, Parser/Statement and Parser/Program have
--                  the methods, one function each, named after the method (`intgr`, `flt`, `boolean`,
--                  `var`, `ret` and `ioPrint` are `parse_integer`, `parse_float`, `parse_boolean`,
--                  `parse_var`, `parse_ret` and `parse_print`). What several methods repeat is one
--                  function: `level` for the six levels of binary operators, `check_types` for the two
--                  checks of `assignment` and `declaration`.
--   Parser/Typing  the typing rules of LANGUAGE.md that the parser enforces, as derivations.
--   Parser/Ensures what each method keeps, and the rules to prove it.
--   Codegen        src/Parser/Codegen.h: Codegen/ScopeStack is the class ScopeStack. Codegen/Calls has the calls of LLVM's
--                  builder as data, latest first; a value, a block or a function is named by the number
--                  of the call that returned it. Codegen/State has the members of the class that the
--                  visitors use, in a monad in which undefined behaviour is `none`. Codegen/Expression
--                  and Codegen/Statement have the visitors, one function each; a visitor takes those of
--                  the children as arguments, and `visit_expr`, `visit_stmt` and `visit_root` tie them
--                  together as `accept` does; Codegen/Visitor has them as a visitor. Codegen/Ensures,
--                  Codegen/Finished, Codegen/Rules and Codegen/Visits have what each visitor keeps, and
--                  the rules to prove it; Codegen/Expression/Meaning has the values that code without branches and
--                  stores computes, on a machine that is a parameter. Codegen/Check is a check on the
--                  tree that says when the code generator reports an error, and Codegen/Attached has
--                  where its blocks belong.
--   Cli            src/Compiler/CLIManager.h: the arguments behind the constructor, and the methods.
--   Printer        src/Parser/Printer.h: the text that each visitor writes. Printer/Visitor has the
--                  class as a visitor.
--   Host           src/Compiler/Process.cpp (Host/Process, and Host/Windows for the other build),
--                  src/Compiler/Linker/Linker.h (Host/Linker), and the methods of src/Parser/Codegen.h
--                  that write files and run programs (Host/Output), on a world that counts temporary
--                  paths and lists what was asked of the operating system.
--   Driver         src/main.cpp: `main`, from its arguments to its exit code.
--   Arena          src/Parser/AST/Arena.h: the bump allocator, on addresses; Arena/Runs has runs of
--                  `construct`, and Arena/Destruction the destructor.
--   Fuzz           fuzz/fuzz_pipeline.cpp: the harness of the fuzzer.
-- The theorems stand in Lexer/Progress, Lexer/Lexemes, Lexer/Blanks, Lexer/Reading, Lexer/Stream,
-- Ast/Operator, Parser/Methods, Parser/Program/Sound, Codegen/ScopeStack,
-- Codegen/Statement/Functions, Codegen/Statement/Scopes, Codegen/Check/Functions,
-- Codegen/Attached/Functions, Codegen/Expression/Meaning/Computes, Cli, Host/Process, Host/Linker,
-- Driver/Ends, Driver/Rejects, Driver/Objects, Driver/Checked, Driver/Paths, Printer/Nested,
-- Host/Windows, Arena, Arena/Runs and Arena/Destruction; the Tests and Witnesses run small files.
--
-- Bounds and fuel. Loops over characters recur on the file. The loop over comments has one unit of fuel
-- for each character and one more; more fuel makes no difference (Lexer/Blanks). The methods of the
-- parser call one another on fuel, and `parse` hands out 16 units for each byte of the file and 32
-- more: a chain of calls that consumes no token is shorter than 16. Running out is a result of its own.
-- Integer literals are bounded by the largest C int; lines and columns are numbers that stay below the
-- length of the file plus two. A file is assumed to be shorter than that bound.
--
-- Parameters. The way `std::cout` writes numbers is a parameter of the printer. `std::stof` is a
-- parameter of the parser, any function from the lexeme to the bits of a float or to nothing, where it
-- throws. The address of a new block is a parameter of the arena. `terminated` is a parameter of the
-- visitors: LLVM's answer to `GetInsertBlock()->getTerminator()`, from the calls so far; what LLVM
-- documents of it is TerminatorLaws. The files and the answers of the operating system (Os) are
-- parameters of `main`. Whether `fmemopen` gives a file is a parameter of the harness, what
-- `CreateProcessA` and the wait give is one of `run_windows`, and the way in which Windows programs
-- split their command line is SplitLaws. `std::stoi` and the character classes of the C library are
-- written out for the texts on which they are called.
--
-- Not modelled. What is printed on the terminal; the nodes' places in the arena (in the parser a node
-- is a value, since no node changes once its statement is built); what LLVM makes of the calls, and the
-- types of its values, such as the operands of a comparison, which LLVM wants to be of one type; the
-- handles of the Windows build of Process.cpp; the text of the linker's temporary program; the debug
-- printer of `main`. The stack of the machine is unbounded, so that the recursion of the parser and the
-- visitors never exhausts it, and so is the counter of the temporary paths, which the source keeps in an
-- `unsigned long`. `char` is signed: the byte 255 is EOF for the lexer, and the bytes from 128 on, which
-- the lexer gives to `isspace`, `isdigit`, `isalpha` and `isalnum` as negative numbers, where C leaves
-- the answer open, are in none of these classes. What the theorems say of undefined behaviour is what
-- they list.
pub mod Prelude
pub mod Token
pub mod Ast
pub mod Lexer
pub mod Parser
pub mod Codegen
pub mod Host
pub mod Driver
pub mod Fuzz
pub mod Printer
pub mod Cli
pub mod Arena
