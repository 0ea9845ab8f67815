-- ===== src/Lex.antt =====
-- The lexer: lib/Lex.
pub mod Lexeme
pub mod Token
pub mod StringPool
pub mod Words
pub mod Branches
pub mod Literals
pub mod Numbers
pub mod Lexer
pub mod Tiling
mod Tests
pub mod Typed
pub mod Spelled
