-- ===== src/Scanner/Tokens.antt =====
-- vm/parser.cpp: the functions that match one token.
use marius.Base.{
  ℕ, zero, suc, ◌+◌, Bool, true, false, not, ◌&&◌, ◌||◌, Option, none, some, List, [], ◌∷◌, ◌==◌,
  leb, if◌then◌else◌, length,
}
use marius.Ast.{Bytes}
use marius.Scanner.Scratch
use marius.Scanner.Scratch.{ScratchBuffer, new_buffer}
use marius.Scanner.Token.{Token}
use marius.Scanner.Input
use marius.Scanner.Input.{Input}

-- `ParserToken`: the number or the string.
pub data Value : Type 0 where
  int : ℕ → Value
  str : Bytes → Value

-- The fields of `Parser` that scanning uses.
pub record Scanner : Type 0 where
  pub input : Input
  pub column : ℕ
  pub line : ℕ
  pub value : Value
  pub token_line : ℕ
  pub import_name : Bool

abbrev pub M : Type 0 → Type 0
M A = Scanner → Option (A × Scanner)

infixl 5 ◌>>=◌ ◌>>◌
abbrev pub ◌>>=◌ : {A B : Type 0} → M A → (A → M B) → M B
◌>>=◌ m k s = elim (m s) [ none ↦ none | some (a, t) ↦ k a t ]

abbrev pub ◌>>◌ : {B : Type 0} → M (Unit {0}) → M B → M B
m >> k = m >>= λ u. k

abbrev pub pure : {A : Type 0} → A → M A
pure a s = some (a, s)

abbrev pub fail : {A : Type 0} → M A
fail s = none

abbrev pub set_value : Value → M (Unit {0})
set_value v s = some (tt, record s { value = v })

-- `isalpha`, `isalnum`
abbrev pub isalpha : ℕ → Bool
isalpha c = (leb b'A' c && leb c b'Z') || (leb b'a' c && leb c b'z')

abbrev pub isdigit : ℕ → Bool
isdigit c = leb b'0' c && leb c b'9'

abbrev pub isalnum : ℕ → Bool
isalnum c = isalpha c || isdigit c

abbrev pub is_operator : ℕ → Bool
is_operator c =
    (c == b'+')
    || (c == b'-')
    || (c == b'!')
    || (c == b'@')
    || (c == b'#')
    || (c == b'$')
    || (c == b'%')
    || (c == b'^')
    || (c == b'&')
    || (c == b'*')
    || (c == b'<')
    || (c == b'>')
    || (c == b'?')
    || (c == b'|')
    || (c == b'~')
    || (c == b':')
    || (c == b'=')
    || (c == b'/')

-- As much fuel as a loop over the input may need.
abbrev pub input_size : Scanner → ℕ
input_size s = suc (length s.input.held + length s.input.file)

abbrev pub copy_out : ScratchBuffer → M Bytes
copy_out buf s = elim (Scratch.copy_out buf) [ none ↦ none | some bytes ↦ some (bytes, s) ]

abbrev pub last : ScratchBuffer → M ℕ
last buf s = elim (Scratch.last buf) [ none ↦ none | some c ↦ some (c, s) ]

-- `value_.s = String::internalize(S, buf.copy_out())`
abbrev pub set_string : ScratchBuffer → M (Unit {0})
set_string buf = do bytes ← copy_out buf; set_value (str bytes)

abbrev pub empty_p : ScratchBuffer → Bool
empty_p buf = buf.len == 0

abbrev pub is_id : ℕ → Bool
is_id c = isalnum c || (c == b'_')

abbrev pub import_tests : List (ℕ → Bool)
import_tests = isalnum ∷ (λ c. c == b'_') ∷ (λ c. c == b'.') ∷ []

abbrev pub blank_tests : List (ℕ → Bool)
blank_tests = (λ c. c == b' ') ∷ (λ c. c == 9) ∷ []

abbrev pub clear_import_name : M (Unit {0})
clear_import_name s = some (tt, record s { import_name = false })

abbrev pub is_mark : ℕ → Bool
is_mark c = (c == b'?') || (c == b'!')

abbrev pub is_setter : ℕ → Bool
is_setter c = (c == b'=') || (c == b'?') || (c == b'!')

abbrev pub in_string : ℕ → Bool
in_string c = not (c == 0) && not (c == 34)

module _ (junk : ℕ → ℕ) where
  unfoldable pub next_c : M ℕ
  next_c s = let (c, i) = Input.next_c junk s.input in some (c, record s { input = i })

  unfoldable pub next_str : ℕ → M Bool
  next_str count s =
      let (met, i) = Input.next_str junk count s.input in some (met, record s { input = i })

  -- `Parser::advance`
  unfoldable pub advance : ℕ → M (Unit {0})
  advance count s = elim (Input.advance count s.input) [
    | none ↦ none
    | some i ↦ some (tt, record s { input = i; column = s.column + count })
  ]

  -- `while(test(c)) { buf.append(c); advance(1); c = next_c(); }`, on fuel, and the last c.
  unfoldable pub gather : ℕ → (ℕ → Bool) → ScratchBuffer → M (ScratchBuffer × ℕ)
  gather zero test buf s = none
  gather (suc fuel) test buf s = elim (next_c s) [
    | none ↦ none
    | some (c, t) ↦ elim (test c) [
      | false ↦ some ((buf, c), t)
      | true ↦ elim (advance 1 t) [
        | none ↦ none
        | some (u, t') ↦ gather fuel test (Scratch.append junk buf c) t'
      ]
    ]
  ]

  abbrev pub gather_all : (ℕ → Bool) → ScratchBuffer → M (ScratchBuffer × ℕ)
  gather_all test buf s = gather (input_size s) test buf s

  -- A byte is appended and passed.
  abbrev pub take_c : ScratchBuffer → ℕ → M ScratchBuffer
  take_c buf c = advance 1 >> pure (Scratch.append junk buf c)

  -- `test(next_c()) || …`: each test reads the byte again.
  unfoldable pub any : List (ℕ → Bool) → M Bool
  any [] = pure false
  any (test ∷ tests) = do c ← next_c; if test c then pure true else any tests

  -- `while(test(next_c()) || …) advance(1);`
  unfoldable pub skip_while : ℕ → List (ℕ → Bool) → M (Unit {0})
  skip_while zero tests s = none
  skip_while (suc fuel) tests s = elim (any tests s) [
    | none ↦ none
    | some (met, t) ↦ elim met [
      | false ↦ some (tt, t)
      | true ↦ elim (advance 1 t) [ none ↦ none | some (u, t') ↦ skip_while fuel tests t' ]
    ]
  ]

  abbrev pub skip_all : List (ℕ → Bool) → M (Unit {0})
  skip_all tests s = skip_while (input_size s) tests s

  -- `while(test(next_c()) || …) { buf.append(next_c()); advance(1); }`
  unfoldable pub gather_while : ℕ → List (ℕ → Bool) → ScratchBuffer → M ScratchBuffer
  gather_while zero tests buf s = none
  gather_while (suc fuel) tests buf s = elim (any tests s) [
    | none ↦ none
    | some (met, t) ↦ elim met [
      | false ↦ some (buf, t)
      | true ↦ elim ((next_c >>= take_c buf) t) [
        | none ↦ none
        | some (buf', t') ↦ gather_while fuel tests buf' t'
      ]
    ]
  ]

  -- `import_name_match`
  unfoldable pub import_name_match : M (Option Token)
  import_name_match = do
    clear_import_name
    skip_all blank_tests
    buf ← (λ s. gather_while (input_size s) import_tests (new_buffer junk) s)
    set_string buf
    pure (some Token.dot_name)

  -- `match_operator`: whether a `=` was taken off the end.
  unfoldable pub match_operator : M Bool
  match_operator = do
    c ← next_c
    first ← take_c (new_buffer junk) c
    r ← gather_all is_operator first
    l ← last r.0
    if l == b'='
        then (do set_string (Scratch.remove_last r.0); pure true)
        else (do set_string r.0; pure false)

  -- A last byte that may be one of the word.
  abbrev pub take_mark : (ℕ → Bool) → ScratchBuffer → ℕ → M ScratchBuffer
  take_mark mark buf c = if mark c then take_c buf c else pure buf

  -- `id_match`
  unfoldable pub id_match : Token → M (Option Token)
  id_match tk = do
    r ← gather_all is_id (new_buffer junk)
    whole ← if empty_p r.0 then pure r.0 else next_c >>= take_mark is_mark r.0
    set_string whole
    pure (some tk)

  -- `str_match`
  unfoldable pub str_match : M (Option Token)
  str_match = do
    r ← gather_all in_string (new_buffer junk)
    if r.1 == 0 then pure none else (do advance 1; set_string r.0; pure (some Token.litstr))

  -- `sym_match`
  unfoldable pub sym_match : M (Option Token)
  sym_match = do
    r ← gather_all isalpha (new_buffer junk)
    if (r.1 == 0) || empty_p r.0
        then pure none
        else (do whole ← take_mark is_setter r.0 r.1; set_string whole; pure (some Token.litstr))
