-- ===== src/Expression.antt =====
-- The repository's own expression language: src/expression_engine/ (lexer, parser, expressions).
pub mod Token
pub mod Lexer
pub mod Syntax
pub mod Parser
pub mod Eval
mod Witness
