-- ===== src/Symbols.antt =====
-- The symbol table and its scopes: src/symbol.c and src/module.c.
pub mod Names
pub mod Scope
pub mod Table
pub mod Search
pub mod Entered
pub mod Indexed
pub mod Lookup
pub mod Nesting
pub mod Declare
pub mod Declared
pub mod Fresh
pub mod Private
