-- ===== src/Codegen.antt =====
-- src/Parser/Codegen.h.
pub mod ScopeStack
pub mod Calls
pub mod State
pub mod Expression
pub mod Statement
pub mod Ensures
pub mod Finished
pub mod Rules
pub mod Visits
pub mod Visitor
pub mod Check
pub mod Attached
pub mod Tests
mod Witnesses
