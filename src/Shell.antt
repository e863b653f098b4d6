-- ===== src/Shell.antt =====
-- Reading a bash command line the way bash reads its words (src/nare/shell_words.py).
pub mod Token
pub mod Quotes
pub mod Lexer
pub mod Commands
pub mod Total
