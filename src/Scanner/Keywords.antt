-- ===== src/Scanner/Keywords.antt =====
-- vm/parser.cpp: `keyword_match` and its table.
use marius.Base.{
  leb, ◌∙◌, ltb, ℕ, ◌<◌, ◌≤◌, ◌≡◌, ap, Bool, true, ◌&&◌, some, List, [], ◌∷◌, length, drop, arith,
}
use marius.Ast.{Bytes}
use marius.Scanner.Input.{Input}
use marius.Scanner.Token.{Token}
use marius.Scanner.Reads.{next_c-text, text}
use marius.Scanner.Gathers.{&&_split, next_c-is, further, seen}
use marius.Scanner.Tokens.{◌>>=◌, Scanner}
use marius.Scanner.Next.{keyword_match, keywords}
use marius.Scanner.Matches.{Longer, Short, keyword_at, token_of, size_of, match_keywords-Looks}

-- Whether no keyword has more than six bytes.
abbrev brief : List (Bytes × Token) → Bool
brief [] = true
brief (k ∷ ks) = leb (length k.0) 6 && brief ks

pub keywords-brief : (c : ℕ) → brief (keywords c) ≡ true
keywords-brief c = ground arith

pub brief-Short : (ks : List (Bytes × Token)) → brief ks ≡ true → Short ks
brief-Short [] h = tt
brief-Short (k ∷ ks) h =
    let p = &&_split (leb (length k.0) 6) (brief ks) h in (ground (arith, p.0), brief-Short ks p.1)

pub brief-Longer :
    (ks : List (Bytes × Token)) (w : List ℕ) → brief ks ≡ true → 7 < length w → Longer w ks
brief-Longer [] w h lt = tt
brief-Longer (k ∷ ks) w h lt =
    let p = &&_split (leb (length k.0) 6) (brief ks) h in
    (ground (arith, p.0, lt), brief-Longer ks w p.1 lt)

-- What `keyword_match` gives in front of the text c ∷ rest.
pub record Finds (junk : ℕ → ℕ) (s : Scanner) (c : ℕ) (rest : List ℕ) : Type 0 where
  pub after : Input
  pub met :
      keyword_match junk s
      ≡ some (
        token_of (keyword_at (keywords c) (c ∷ rest)),
        further s after (size_of (keyword_at (keywords c) (c ∷ rest))),
      )
  pub left : text after ≡ drop (size_of (keyword_at (keywords c) (c ∷ rest))) (c ∷ rest)
  pub fits : length after.held ≤ 1023

-- In front of at least eight bytes, of which the first is no negative `char`, `keyword_match` gives the
-- first keyword of its letter that stands there with no letter and no `_` behind it, and passes just
-- that keyword; where there is none, it gives none and passes nothing.
pub keyword_match-keyword_at :
    (junk : ℕ → ℕ) (s : Scanner) (c : ℕ) (rest : List ℕ)
    → text s.input ≡ c ∷ rest
    → length s.input.held ≤ 1023
    → c < 128
    → 6 < length rest
    → Finds junk s c rest
unfolding keyword_match
keyword_match-keyword_at junk s c rest e fits ascii long =
    let o = next_c-text junk s.input fits (omega (arith, ap length e)) in
    let brief = keywords-brief c in
    let r =
      match_keywords-Looks junk (c ∷ rest) (keywords c) (seen s o.after) (o.same ∙ e) o.fits
        (brief-Short (keywords c) brief)
        (brief-Longer (keywords c) (c ∷ rest) brief (omega arith)) in
    let small : ltb c 128 ≡ true = ground arith in
    record {
      after = r.after;
      met = rw (keyword_match, ◌>>=◌, next_c-is junk s o c rest e, small) r.met;
      left = r.left;
      fits = r.fits;
    }
