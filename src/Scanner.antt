-- ===== src/Scanner.antt =====
-- vm/parser.cpp: the scanner, which makes tokens of the bytes of a file, and the buffer in which a
-- token is gathered.
pub mod Scratch
pub mod Input
pub mod Token
pub mod Tokens
pub mod Next
pub mod Reads
pub mod Gathers
pub mod Contents
pub mod Words
pub mod Blanks
pub mod Quoted
pub mod Matches
pub mod Keywords
pub mod Identifiers
mod Tests
