-- ===== src/Scanner/Blanks.antt =====
-- vm/parser.cpp: the spaces in front of a token, in `next_token`.
use marius.Base.{
  ◌+◌, if◌then◌else◌, sym, ℕ, zero, suc, ◌<◌, ◌≤◌, ◌≡◌, refl, ap, ◌∙◌, Bool, true, false, some,
  List, [], ◌∷◌, ◌++◌, length, replicate, length-replicate, ◌==◌, drop, arith, length-append,
}
use marius.Scanner.Input.{Input}
use marius.Scanner.Token.{Token}
use marius.Scanner.Reads.{text, next_c-text}
use marius.Scanner.Gathers.{
  next_c-is, seen-further, further-further, further, seen, next_c-offers, advance-offers,
}
use marius.Scanner.Words.{input_size-enough}
use marius.Scanner.Tokens.{
  str, int, import_name_match, advance, Scanner, input_size, next_c, any, skip_while, ◌>>=◌, ◌>>◌,
}
use marius.Scanner.Next.{next_token, again, token, spaces}

abbrev is_blank : List (ℕ → Bool)
is_blank = (λ c. c == b' ') ∷ []

record Skips (junk : ℕ → ℕ) (fuel : ℕ) (s : Scanner) (n : ℕ) (rest : List ℕ) : Type 0 where
  after : Input
  met : skip_while junk fuel is_blank s ≡ some (tt, further s after n)
  left : text after ≡ rest
  fits : length after.held ≤ 1023

module _ (junk : ℕ → ℕ) (c : ℕ) (rest : List ℕ) (more : 0 < length rest)
    (stop : (c == 32) ≡ false) where
  skip_while-blanks :
      (fuel : ℕ) (n : ℕ) (s : Scanner)
      → n < fuel
      → text s.input ≡ replicate n 32 ++ c ∷ rest
      → length s.input.held ≤ 1023
      → Skips junk fuel s n (c ∷ rest)
  unfolding skip_while any
  skip_while-blanks zero n s lt e fits = absurd (omega arith)
  skip_while-blanks (suc fuel) zero s lt e fits =
      let o = next_c-text junk s.input fits (omega (arith, ap length e)) in
      record {
        after = o.after;
        met =
            rw (skip_while, any, ◌>>=◌, next_c-offers junk s o, e, stop)
              (ap (λ (t : Scanner). some (tt, t)) (seen-further s o.after));
        left = o.same ∙ e;
        fits = o.fits;
      }
  skip_while-blanks (suc fuel) (suc n) s lt e fits =
      let o =
        next_c-text junk s.input fits
          (omega (arith, ap length e, length-append (replicate n 32) (c ∷ rest))) in
      let rec =
        skip_while-blanks fuel n (further s o.passed 1) (omega arith) (o.left ∙ ap (drop 1) e)
          o.fits_passed in
      record {
        after = rec.after;
        met =
            rw (skip_while, any, ◌>>=◌, next_c-offers junk s o, e, advance-offers junk s o)
              (rec.met
                ∙ ap (λ (t : Scanner). some (tt, t))
                    (further-further s o.passed rec.after 1 n (suc n) (omega arith)));
        left = rec.left;
        fits = rec.fits;
      }

-- The scanner has read the first byte of a token, and looks at which one it is.
pub record Begins (junk : ℕ → ℕ) (fuel : ℕ) (s : Scanner) (n c : ℕ) (rest : List ℕ) : Type 0 where
  pub after : Input
  pub met : again junk fuel s ≡ token junk c (further s after n)
  pub left : text after ≡ c ∷ rest
  pub fits : length after.held ≤ 1023
  pub passed : Input
  pub moved : advance junk 1 (further s after n) ≡ some (tt, further s passed (suc n))
  pub behind : text passed ≡ rest
  pub fits_passed : length passed.held ≤ 1023

module _ (junk : ℕ → ℕ) (fuel : ℕ) (s t : Scanner) (c : ℕ) (now : next_c junk s ≡ some (c, t)) where
  again-token : (c == 32) ≡ false → (c == 35) ≡ false → again junk (suc fuel) s ≡ token junk c t
  unfolding again
  again-token stop code = rw (again, now, stop, code) refl

  again-spaces :
      (u : Scanner)
      → (c == 32) ≡ true
      → spaces junk t ≡ some (tt, u)
      → again junk (suc fuel) s ≡ again junk fuel u
  unfolding again
  again-spaces u more skipped = rw (again, now, more, ◌>>◌, ◌>>=◌, skipped) refl

blanks_fit :
    (n : ℕ) (rest : List ℕ) (s : Scanner) → text s.input ≡ replicate n 32 ++ rest → n < input_size s
blanks_fit n rest s e =
    let lt = input_size-enough s (replicate n 32) rest e in
    omega (arith, lt, length-replicate {A = ℕ} n 32)

module _ (junk : ℕ → ℕ) (c : ℕ) (rest : List ℕ) (more : 0 < length rest) (stop : (c == 32) ≡ false)
    (code : (c == 35) ≡ false) where
  again-begins :
      (fuel : ℕ) (s : Scanner)
      → 0 < fuel
      → text s.input ≡ c ∷ rest
      → length s.input.held ≤ 1023
      → Begins junk fuel s 0 c rest
  again-begins zero s lt e fits = absurd (omega arith)
  again-begins (suc fuel) s lt e fits =
      let o = next_c-text junk s.input fits (omega (arith, ap length e)) in
      record {
        after = o.after;
        met =
            again-token junk fuel s (seen s o.after) c (next_c-is junk s o c rest e) stop code
            ∙ (ap (token junk c) (seen-further s o.after));
        left = o.same ∙ e;
        fits = o.fits;
        passed = o.passed;
        moved = ap (advance junk 1) (sym (seen-further s o.after)) ∙ advance-offers junk s o;
        behind = o.left ∙ ap (drop 1) e;
        fits_passed = o.fits_passed;
      }

  pub again-blanks :
      (fuel n : ℕ) (s : Scanner)
      → 1 < fuel
      → text s.input ≡ replicate n 32 ++ c ∷ rest
      → length s.input.held ≤ 1023
      → Begins junk fuel s n c rest
  again-blanks fuel zero s lt e fits = again-begins fuel s (omega arith) e fits
  again-blanks zero (suc n) s lt e fits = absurd (omega arith)
  again-blanks (suc fuel) (suc n) s lt e fits =
      let o =
        next_c-text junk s.input fits
          (omega (arith, ap length e, length-append (replicate n 32) (c ∷ rest))) in
      let s' : Scanner = seen s o.after in
      let skip =
        skip_while-blanks junk c rest more stop (input_size s') (suc n) s'
          (blanks_fit (suc n) (c ∷ rest) s' (o.same ∙ e)) (o.same ∙ e) o.fits in
      let next =
        again-begins fuel (further s' skip.after (suc n)) (omega arith) skip.left skip.fits in
      record {
        after = next.after;
        met =
            again-spaces junk fuel s s' 32 (next_c-is junk s o 32 (replicate n 32 ++ c ∷ rest) e)
              (further s' skip.after (suc n)) refl skip.met
            ∙ (next.met
                ∙ ap (token junk c)
                    (further-further s' skip.after next.after (suc n) 0 (suc n) (omega arith)));
        left = next.left;
        fits = next.fits;
        passed = next.passed;
        moved =
            ap (advance junk 1)
              (sym (further-further s' skip.after next.after (suc n) 0 (suc n) (omega arith)))
            ∙ next.moved
            ∙ ap (λ (t : Scanner). some (tt, t))
                (further-further s' skip.after next.passed (suc n) 1 (suc (suc n)) (omega arith));
        behind = next.behind;
        fits_passed = next.fits_passed;
      }

-- The scanner where it begins with a token.
abbrev pub started : Scanner → Scanner
started s = record s { token_line = s.line; value = int 0 }

pub next_token-again :
    (junk : ℕ → ℕ) (s : Scanner)
    → s.import_name ≡ false
    → next_token junk s ≡ again junk (input_size s) (started s)
unfolding next_token
next_token-again junk s e =
    ap
      (λ (b : Bool).
        if b then import_name_match junk (started s) else again junk (input_size s) (started s))
      e

-- The scanner behind a token, which began in its line.
abbrev pub behind : Scanner → Input → ℕ → List ℕ → Scanner
behind s i n word = record s {
  input = i;
  column = s.column + n;
  value = str word;
  token_line = s.line;
}

pub record Scans (junk : ℕ → ℕ) (s : Scanner) (tk : Token) (word : List ℕ) (count : ℕ)
    (rest : List ℕ) : Type 0 where
  pub after : Input
  pub met : next_token junk s ≡ some (some tk, behind s after count word)
  pub left : text after ≡ rest
  pub fits : length after.held ≤ 1023
