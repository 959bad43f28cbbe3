-- ===== src/Scanner/Identifiers.antt =====
-- vm/parser.cpp: keywords and identifiers, in `next_token`.
use marius.Base.{
  List, replicate, some, ◌<◌, ◌≤◌, ◌+◌, ◌++◌, ◌∷◌, length, length-append, ap, ℕ, ◌≡◌, true, false,
  arith,
}
use marius.Ast.{Bytes}
use marius.Scanner.Input.{Input}
use marius.Scanner.Token.{Token}
use marius.Scanner.Reads.{text}
use marius.Scanner.Gathers.{further}
use marius.Scanner.Keywords.{Finds, keyword_match-keyword_at}
use marius.Scanner.Blanks.{Begins, again-blanks, started}
use marius.Scanner.Tokens.{Scanner, int, input_size, isalpha}
use marius.Scanner.Next.{next_token}

-- The scanner behind a keyword.
pub record ScansKeyword (junk : ℕ → ℕ) (s : Scanner) (k : Bytes × Token) (count : ℕ) (rest : List ℕ)
    : Type 0 where
  pub after : Input
  pub met :
      next_token junk s
      ≡ some (
        some k.1,
        record s { input = after; column = s.column + count; value = int 0; token_line = s.line },
      )
  pub left : text after ≡ rest
  pub fits : length after.held ≤ 1023

module _ (junk : ℕ → ℕ) (s : Scanner) (n c : ℕ) (rest : List ℕ) (fits : length s.input.held ≤ 1023)
    (no_import : s.import_name ≡ false) (e : text s.input ≡ replicate n 32 ++ c ∷ rest)
    (alpha : isalpha c ≡ true) (long : 6 < length rest) where
  long_enough : 1 < input_size s
  long_enough = omega (
    arith,
    length-append s.input.held s.input.file,
    ap length e,
    length-append (replicate n 32) (c ∷ rest),
  )

  abbrev word_begins : Begins junk (input_size s) (started s) n c rest
  word_begins =
      again-blanks junk c rest (omega (arith, long)) (ground (arith, alpha)) (ground (arith, alpha))
        (input_size s) n (started s) long_enough e fits

  abbrev word_finds : Finds junk (further (started s) word_begins.after n) c rest
  word_finds =
      keyword_match-keyword_at junk (further (started s) word_begins.after n) c rest
        word_begins.left word_begins.fits (ground (arith, alpha)) long
