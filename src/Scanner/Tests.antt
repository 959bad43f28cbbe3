-- ===== src/Scanner/Tests.antt =====
-- Runs of the scanner and its scratch buffer.
use marius.Base.{
  Option, true, ℕ, List, false, none, codes, ◌≡◌, refl, [], ◌∷◌, ◌++◌, arith, replicate, some,
}
use marius.Scanner.Scratch.{
  ScratchBuffer, new_buffer, last, remove_last, IsValid, append, gathered, copy_out,
  gathered-append, append-IsValid,
}
use marius.Scanner.Input
use marius.Scanner.Input.{open_file}
use marius.Scanner.Token.{Token}
use marius.Scanner.Tokens.{
  Value, any, skip_while, advance, next_c, next_str, match_operator, gather, Scanner, int, str,
}
use marius.Scanner.Next.{
  again, token, strtol, digits, skip_comment, match_keywords, keyword_match, next_token,
}
use marius.Scanner.Reads.{Offers, next_c-text}
use marius.Scanner.Keywords.{Finds, keyword_match-keyword_at}

abbrev junk : ℕ → ℕ
junk i = 255

-- 32 bytes in 32.
abbrev full : ScratchBuffer
full = record { buf = replicate 32 65; len = 32; capa = 32 }

abbrev two_bytes : ScratchBuffer
two_bytes = record { buf = 65 ∷ 66 ∷ 0 ∷ 0 ∷ []; len = 2; capa = 4 }

full-IsValid : IsValid full
full-IsValid = record { size = refl; room = omega arith; some_room = omega arith }

copied : copy_out two_bytes ≡ some (65 ∷ 66 ∷ [])
unfolding copy_out
copied = refl

gathered-append_example : gathered (append junk full 67) ≡ replicate 31 65 ++ 255 ∷ 67 ∷ []
gathered-append_example = gathered-append junk full 67 full-IsValid

append-IsValid_example : IsValid (append junk full 67)
append-IsValid_example = append-IsValid junk full 67 full-IsValid

-- A scanner that has read nothing of a file yet.
abbrev fresh : List ℕ → Scanner
fresh bytes = record {
  input = open_file bytes;
  column = 1;
  line = 1;
  value = int 0;
  token_line = 1;
  import_name = false;
}

next_c-text_example : Offers junk (open_file (codes "if a"))
next_c-text_example = next_c-text junk (open_file (codes "if a")) (omega arith) (omega arith)

keyword_match-keyword_at_example : Finds junk (fresh (codes "return 1;")) b'r' (codes "eturn 1;")
keyword_match-keyword_at_example =
    keyword_match-keyword_at junk (fresh (codes "return 1;")) b'r' (codes "eturn 1;") refl
      (omega arith) (omega arith) (omega arith)

abbrev long_string : List ℕ
long_string = codes "this text has thirty-two bytes.."

-- The token of a scanner's step, and its value.
abbrev token_value : Option (Option Token × Scanner) → Option (Option Token × Value)
token_value none = none
token_value (some (tk, s)) = some (tk, s.value)

hexadecimal :
    token_value (next_token junk (fresh (codes "  0x1F; "))) ≡ some (some Token.num, int 31)
unfolding next_token again token skip_while any strtol digits advance Input.advance next_c
    Input.next_c Input.next_str
hexadecimal = refl

set_operator :
    token_value (next_token junk (fresh (codes "+= 1;")))
    ≡ some (some Token.op1_set, str (codes "+"))
unfolding next_token again token match_operator gather advance Input.advance next_c Input.next_c
    Input.next_str append new_buffer last remove_last copy_out
set_operator = refl

-- A keyword ends in front of a digit.
keyword_then_number :
    token_value (next_token junk (fresh (35 ∷ 10 ∷ codes "end2 = 1;;;")))
    ≡ some (some Token.end, int 0)
unfolding next_token again token skip_comment keyword_match match_keywords advance next_str
    Input.advance next_c Input.next_c Input.next_str
keyword_then_number = refl

-- The last byte of a file is not given.
last_byte :
    Input.next_c junk (record { has_buffer = true; before = []; held = codes ";"; file = [] })
    ≡ (0, record { has_buffer = true; before = []; held = codes ";"; file = [] })
unfolding Input.next_c Input.next_str
last_byte = refl
