-- ===== src/Scanner/Quoted.antt =====
-- vm/parser.cpp: string literals, in `str_match` and `next_token`.
use marius.Base.{
  length-append, false, replicate, ℕ, ◌<◌, ◌≤◌, ◌≡◌, refl, ap, List, ◌∷◌, ◌++◌, length, arith,
}
use marius.Scanner.Scratch.{ScratchBuffer, new_buffer}
use marius.Scanner.Token.{Token}
use marius.Scanner.Reads.{text}
use marius.Scanner.Contents.{append_all}
use marius.Scanner.Blanks.{started, Begins, again-blanks}
use marius.Scanner.Gathers.{Passes, gather-run, Gathers}
use marius.Scanner.Words.{input_size-enough}
use marius.Scanner.Tokens.{Scanner, in_string, input_size}

-- Bytes between the quotes.
module _ (junk : ℕ → ℕ) (s : Scanner) (run : List ℕ) (d : ℕ) (rest : List ℕ)
    (fits : length s.input.held ≤ 1023) (e : text s.input ≡ run ++ 34 ∷ d ∷ rest)
    (inside : Passes in_string run) where
  abbrev string_buffer : ScratchBuffer
  string_buffer = append_all junk run (new_buffer junk)

  abbrev string_gathered :
      Gathers junk (input_size s) in_string (new_buffer junk) s run 34 (d ∷ rest)
  string_gathered =
      gather-run junk in_string 34 d rest refl (input_size s) run (new_buffer junk) s
        (input_size-enough s run (34 ∷ d ∷ rest) e) inside e fits

-- A string literal behind spaces, as it is written.
abbrev pub quoted : ℕ → List ℕ → List ℕ → List ℕ
quoted n run rest = replicate n 32 ++ 34 ∷ (run ++ 34 ∷ rest)

module _ (junk : ℕ → ℕ) (s : Scanner) (n : ℕ) (run : List ℕ) (d : ℕ) (rest : List ℕ)
    (fits : length s.input.held ≤ 1023) (no_import : s.import_name ≡ false)
    (e : text s.input ≡ quoted n run (d ∷ rest)) (inside : Passes in_string run) where
  long_enough : 1 < input_size s
  long_enough = omega (
    arith,
    length-append s.input.held s.input.file,
    ap length e,
    length-append (replicate n 32) (34 ∷ (run ++ 34 ∷ d ∷ rest)),
  )

  abbrev quote_begins : Begins junk (input_size s) (started s) n 34 (run ++ 34 ∷ d ∷ rest)
  quote_begins =
      again-blanks junk 34 (run ++ 34 ∷ d ∷ rest) (omega (arith, length-append run (34 ∷ d ∷ rest)))
        refl refl (input_size s) n (started s) (long_enough) e fits
