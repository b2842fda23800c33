-- ===== src/Parser.antt =====
-- src/Parser/Parser.h and src/Parser/Parser.cpp: `State` holds the parser's state and its monad,
-- `Expression` and `Statement` the grammar, and the others what is proved of them.
pub mod State
pub mod Expression
pub mod Statement
pub mod Program
pub mod Typing
pub mod Ensures
pub mod Methods
pub mod Tests
mod Witnesses
