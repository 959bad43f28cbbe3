-- ===== src/Scanner/Next.antt =====
-- vm/parser.cpp: the keywords, and `Parser::next_token`. A token of -1 is `none`.
use marius.Base.{
  ℕ, zero, suc, ◌+◌, ◌-◌, ◌*◌, ◌^◌, Bool, true, false, not, ◌&&◌, ◌||◌, Option, none, some, List,
  [], ◌∷◌, ◌==◌, ltb, leb, if◌then◌else◌, length, take, drop, get_or, codes,
}
use marius.Ast.{Bytes}
use marius.Table.Bucket.{equal}
use marius.Scanner.Token.{Token}
use marius.Scanner.Tokens.{
  Value, int, str, M, ◌>>=◌, ◌>>◌, pure, fail, set_value, isalpha, isdigit, match_operator,
  id_match, str_match, sym_match, import_name_match, next_c, next_str, advance, skip_all,
  input_size,
}

-- `init_keywords`, by the first letter.
abbrev pub keywords : ℕ → List (Bytes × Token)
keywords c =
    if c == b'a'
    then (codes "as", Token.as_) ∷ []
    else if c == b'c'
    then (codes "class", Token.class) ∷ []
    else if c == b'd'
    then (codes "def", Token.def) ∷ []
    else if c == b'e'
    then (codes "end", Token.end) ∷ (codes "else", Token.else_) ∷ []
    else if c == b'f'
    then (codes "false", Token.false) ∷ []
    else if c == b'i'
    then (codes "if", Token.if_) ∷ (codes "import", Token.import) ∷ []
    else if c == b'n'
    then (codes "nil", Token.nil) ∷ []
    else if c == b'r'
    then (codes "rescue", Token.rescue)
      ∷ (codes "raise", Token.raise)
      ∷ (codes "return", Token.return)
      ∷ []
    else if c == b's'
    then (codes "self", Token.self) ∷ []
    else if c == b't'
    then (codes "true", Token.true) ∷ (codes "try", Token.try) ∷ (codes "trait", Token.trait) ∷ []
    else if c == b'u'
    then (codes "unless", Token.unless) ∷ []
    else if c == b'w'
    then (codes "while", Token.while) ∷ []
    else []

-- A digit's value in a base up to 16, or 16 for no digit.
abbrev pub digit : ℕ → ℕ
digit c =
    if isdigit c
    then c - b'0'
    else if leb b'a' c && leb c b'f'
    then c - b'a' + 10
    else if leb b'A' c && leb c b'F'
    then c - b'A' + 10
    else 16

-- The digits of a base, with the value and how many there are.
unfoldable pub digits : ℕ → List ℕ → ℕ → ℕ → ℕ × ℕ
digits base [] n k = (n, k)
digits base (c ∷ cs) n k =
    let rest = digits base cs (n * base + digit c) (suc k) in
    if ltb (digit c) base then rest else (n, k)

abbrev pub is_x : ℕ → Bool
is_x c = (c == b'x') || (c == b'X')

-- `strtol` in base 0, of a text that begins with a digit: hexadecimal, octal or decimal, and at most
-- the greatest `long`. Then how many bytes it has read.
unfoldable pub strtol : List ℕ → ℕ × ℕ
strtol [] = (0, 0)
strtol (c ∷ cs) =
    let hex = is_x (get_or cs 0 0) && ltb (digit (get_or cs 1 0)) 16 in
    let (n, k) =
      if c == b'0'
      then (if hex then digits 16 (drop 1 cs) 0 2 else digits 8 cs 0 1)
      else digits 10 (c ∷ cs) 0 0 in
    (if ltb n (2 ^ 63) then n else 2 ^ 63 - 1, k)

abbrev pub start_token : M (Unit {0})
start_token s = some (tt, record s { token_line = s.line; value = int 0 })

abbrev pub new_line : M (Unit {0})
new_line s = some (tt, record s { column = 0; line = suc s.line })

abbrev pub is_value : Bytes → Value → Bool
is_value text (int n) = false
is_value text (str s) = equal s text

abbrev pub get_value : M Value
get_value s = some (s.value, s)

abbrev pub get_held : M (List ℕ)
get_held s = some (s.input.held, s)

module _ (junk : ℕ → ℕ) where
  -- The loop of `keyword_match`. A word is a keyword where no letter or `_` follows it.
  unfoldable pub match_keywords : List (Bytes × Token) → M (Option Token)
  match_keywords [] = pure none
  match_keywords (k ∷ ks) = do
    let len : ℕ = length k.0
    met ← next_str junk len
    text ← get_held
    if met && equal (take len text) k.0
        then (do
          more ← next_str junk (len + 1)
          held ← get_held
          if not more || (not (isalpha (get_or held len 0)) && not (get_or held len 0 == b'_'))
              then advance junk len >> pure (some k.1)
              else match_keywords ks)
        else match_keywords ks

  -- `keyword_match`: the table has no place for a byte that is negative as a `char`.
  unfoldable pub keyword_match : M (Option Token)
  keyword_match = do c ← next_c junk; if ltb c 128 then match_keywords (keywords c) else fail

  -- A token of one byte.
  abbrev pub pass : Token → M (Option Token)
  pass tk = advance junk 1 >> pure (some tk)

  abbrev pub pass_as : Bytes → Token → M (Option Token)
  pass_as text tk = advance junk 1 >> set_value (str text) >> pure (some tk)

  abbrev pub operator : Token → Token → M (Option Token)
  operator set plain = do s ← match_operator junk; pure (some (if s then set else plain))

  -- An operator that is a token of its own where its text is `text`.
  abbrev pub operator_but : Bytes → Token → M (Option Token)
  operator_but text own = do
    s ← match_operator junk
    v ← get_value
    pure (some (if is_value text v then own else if s then Token.op0_set else Token.op0))

  -- One byte more makes another token.
  abbrev pub peek : ℕ → Token → M (Option Token) → M (Option Token)
  peek c tk other = do next ← next_c junk; if next == c then pass tk else other

  abbrev pub number : M (Option Token)
  number = do
    text ← get_held
    let r = strtol text
    set_value (int r.0)
    if r.1 == 0 then pure none else advance junk r.1 >> pure (some Token.num)

  abbrev pub equals : M (Option Token)
  equals = do
    advance junk 1
    c ← next_c junk
    if c == b'='
        then (do
          advance junk 1
          d ← next_c junk
          if d == b'='
              then pass_as (codes "===") Token.op0
              else (set_value (str (codes "==")) >> pure (some Token.op0)))
        else pure (some Token.equal)

  abbrev pub word : ℕ → M (Option Token)
  word c = do
    k ← keyword_match
    elim k [
      | some tk ↦ pure (some tk)
      | none ↦ if isalpha c then id_match junk Token.id else pure none
    ]

  -- The switch, but for the cases that go back to `again`.
  unfoldable pub token : ℕ → M (Option Token)
  token c =
      if c == 0
      then pure (some Token.eof)
      else if isdigit c
      then number
      else if (c == b'+') || (c == b'-') || (c == b'$')
      then operator Token.op1_set Token.op1
      else if (c == b'*') || (c == b'/')
      then operator Token.op2_set Token.op2
      else if c == b'%'
      then advance junk 1
        >> peek b'(' Token.tuple_start
            (peek b'{' Token.dict_start (peek b'[' Token.list (sym_match junk)))
      else if c == b'.'
      then advance junk 1 >> peek b'$' Token.dot_dollar (id_match junk Token.dot)
      else if c == b','
      then pass Token.comma
      else if c == b'|'
      then pass_as (codes "|") Token.pipe
      else if c == b'}'
      then pass Token.rb
      else if c == b'{'
      then pass Token.lb
      else if c == b'['
      then (do
        advance junk 1
        d ← next_c junk
        if d == b']' then pass_as (codes "[]") Token.square else pure (some Token.lsb))
      else if c == b']'
      then pass Token.rsb
      else if c == b'('
      then pass Token.lp
      else if c == b')'
      then pass Token.rp
      else if c == b'='
      then equals
      else if c == b'!'
      then advance junk 1 >> peek b'=' Token.nequal (pure (some Token.not))
      else if c == b'<'
      then operator_but (codes "<") Token.lt
      else if c == b'>'
      then operator Token.op0_set Token.op0
      else if c == 10
      then new_line >> pass Token.nl
      else if c == b';'
      then pass Token.semi
      else if c == b'@'
      then advance junk 1 >> id_match junk Token.ivar
      else if c == b':'
      then (do
        advance junk 1
        d ← next_c junk
        if d == b':' then pass_as (codes "::") Token.dcolon else pure (some Token.cast))
      else if c == b'&'
      then operator_but (codes "&&") Token.and
      else if c == 34
      then advance junk 1 >> str_match junk
      else word c

  -- `while(next_c() != '\n') { if(!next_c()) break; advance(1); }`
  unfoldable pub skip_comment : ℕ → M (Unit {0})
  skip_comment zero s = none
  skip_comment (suc fuel) s = elim (next_c junk s) [
    | none ↦ none
    | some (c, t) ↦ elim (c == 10) [
      | true ↦ some (tt, t)
      | false ↦ elim (next_c junk t) [
        | none ↦ none
        | some (d, t') ↦ elim (d == 0) [
          | true ↦ some (tt, t')
          | false ↦ elim (advance junk 1 t') [ none ↦ none | some (u, u') ↦ skip_comment fuel u' ]
        ]
      ]
    ]
  ]

  abbrev pub comment : M (Unit {0})
  comment = (λ s. skip_comment (input_size s) s) >> new_line >> advance junk 1

  abbrev pub spaces : M (Unit {0})
  spaces = skip_all junk ((λ c. c == b' ') ∷ [])

  -- From `again` on; each turn takes a byte.
  unfoldable pub again : ℕ → M (Option Token)
  again zero s = none
  again (suc fuel) s = elim (next_c junk s) [
    | none ↦ none
    | some (c, t) ↦ elim (c == b' ') [
      | true ↦ (spaces >> again fuel) t
      | false ↦ elim (c == b'#') [ true ↦ (comment >> again fuel) t | false ↦ token c t ]
    ]
  ]

  unfoldable pub next_token : M (Option Token)
  next_token s =
      if s.import_name
      then (start_token >> import_name_match junk) s
      else (start_token >> again (input_size s)) s
