-- ===== src/Tools.antt =====
-- The tool registry and executor: src/tools/tool_registry.h and src/tools/tool_executor.h.
-- The registry's hash map is an association list; a tool's JSON schema is carried as a value.
pub mod Registry
pub mod Executor
pub mod Shell
pub mod FileRead
pub mod Calculator
pub mod Builtin
mod Tests
