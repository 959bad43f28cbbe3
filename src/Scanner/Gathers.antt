-- ===== src/Scanner/Gathers.antt =====
-- vm/parser.cpp: the loops that gather the bytes of a token.
use marius.Base.{
  sym, ◌&&◌, Bool, true, ℕ, zero, suc, ◌+◌, ◌<◌, ◌≤◌, ◌≡◌, refl, ap, ◌∙◌, false, some, List, [],
  ◌∷◌, ◌++◌, length, drop, arith, length-append,
}
use marius.Scanner.Scratch.{ScratchBuffer, append}
use marius.Scanner.Input.{Input, first}
use marius.Scanner.Contents.{append_all}
use marius.Scanner.Reads.{text, Offers, next_c-text}
use marius.Scanner.Tokens.{Scanner, next_c, advance, gather}

-- Whether every byte passes the test.
abbrev pub all : (ℕ → Bool) → List ℕ → Bool
all test [] = true
all test (c ∷ cs) = test c && all test cs

abbrev pub Passes : (ℕ → Bool) → List ℕ → Type 0
Passes test cs = all test cs ≡ true

pub &&_split : (a b : Bool) → (a && b) ≡ true → (a ≡ true) × (b ≡ true)
&&_split a b h = ground (arith, h)

-- The scanner where a byte was read, and n bytes further.
abbrev pub seen : Scanner → Input → Scanner
seen s i = record s { input = i }

abbrev pub further : Scanner → Input → ℕ → Scanner
further s i n = record s { input = i; column = s.column + n }

pub seen-further : (s : Scanner) (i : Input) → seen s i ≡ further s i 0
seen-further s i = ap (λ (n : ℕ). record s { input = i; column = n }) (omega arith)

pub further-further :
    (s : Scanner) (i j : Input) (m n k : ℕ)
    → m + n ≡ k
    → further (further s i m) j n ≡ further s j k
further-further s i j m n k e =
    ap (λ (n : ℕ). record s { input = j; column = n }) (omega (arith, e))

module _ (junk : ℕ → ℕ) (s : Scanner) (o : Offers junk s.input) where
  pub next_c-offers : next_c junk s ≡ some (first (text s.input), seen s o.after)
  unfolding next_c
  next_c-offers = rw (o.met) refl

  pub next_c-is :
      (c : ℕ) (rest : List ℕ) → text s.input ≡ c ∷ rest → next_c junk s ≡ some (c, seen s o.after)
  next_c-is c rest e = next_c-offers ∙ ap (λ (x : List ℕ). some (first x, seen s o.after)) e

  pub advance-offers : advance junk 1 (seen s o.after) ≡ some (tt, further s o.passed 1)
  unfolding advance
  advance-offers = rw (advance, o.moved) refl

module _ (junk : ℕ → ℕ) (fuel : ℕ) (test : ℕ → Bool) (buf : ScratchBuffer) (s t : Scanner) (c : ℕ)
    (now : next_c junk s ≡ some (c, t)) where
  gather-stops : test c ≡ false → gather junk (suc fuel) test buf s ≡ some ((buf, c), t)
  unfolding gather
  gather-stops stop = rw (gather, now, stop) refl

  gather-goes :
      (next : Scanner)
      → test c ≡ true
      → advance junk 1 t ≡ some (tt, next)
      → gather junk (suc fuel) test buf s ≡ gather junk fuel test (append junk buf c) next
  unfolding gather
  gather-goes next go moved = rw (gather, now, go, moved) refl

-- A run of bytes gathered: where the scanner then is, and what is left of the text, then
-- behind one byte more.
pub record Gathers (junk : ℕ → ℕ) (fuel : ℕ) (test : ℕ → Bool) (buf : ScratchBuffer) (s : Scanner)
    (run : List ℕ) (c : ℕ) (rest : List ℕ) : Type 0 where
  pub after : Input
  pub met :
      gather junk fuel test buf s
      ≡ some ((append_all junk run buf, c), further s after (length run))
  pub left : text after ≡ c ∷ rest
  pub fits : length after.held ≤ 1023
  pub passed : Input
  pub moved :
      advance junk 1 (further s after (length run)) ≡ some (tt, further s passed (suc (length run)))
  pub behind : text passed ≡ rest
  pub fits_passed : length passed.held ≤ 1023

module _ (junk : ℕ → ℕ) (test : ℕ → Bool) (c d : ℕ) (rest : List ℕ) (stop : test c ≡ false) where
  pub gather-run :
      (fuel : ℕ) (run : List ℕ) (buf : ScratchBuffer) (s : Scanner)
      → length run < fuel
      → Passes test run
      → text s.input ≡ run ++ c ∷ d ∷ rest
      → length s.input.held ≤ 1023
      → Gathers junk fuel test buf s run c (d ∷ rest)
  gather-run zero run buf s lt h e fits = absurd (omega arith)
  gather-run (suc fuel) [] buf s lt h e fits =
      let o = next_c-text junk s.input fits (omega (arith, ap length e)) in
      record {
        after = o.after;
        met =
            gather-stops junk fuel test buf s (seen s o.after) c (next_c-is junk s o _ _ e) stop
            ∙ ap (λ (n : ℕ). some ((buf, c), record s { input = o.after; column = n }))
                (omega arith);
        left = o.same ∙ e;
        fits = o.fits;
        passed = o.passed;
        moved = ap (advance junk 1) (sym (seen-further s o.after)) ∙ advance-offers junk s o;
        behind = o.left ∙ ap (drop 1) e;
        fits_passed = o.fits_passed;
      }
  gather-run (suc fuel) (b ∷ run) buf s lt h e fits =
      let p = &&_split (test b) (all test run) h in
      let o =
        next_c-text junk s.input fits
          (omega (arith, ap length e, length-append run (c ∷ d ∷ rest))) in
      let rec =
        gather-run fuel run (append junk buf b) (further s o.passed 1) (omega arith) p.1
          (o.left ∙ ap (drop 1) e) o.fits_passed in
      record {
        after = rec.after;
        met =
            gather-goes junk fuel test buf s (seen s o.after) b (next_c-is junk s o _ _ e)
              (further s o.passed 1) p.0 (advance-offers junk s o)
            ∙ rec.met
            ∙ ap
                (λ (n : ℕ). some (
                  (append_all junk run (append junk buf b), c),
                  record s { input = rec.after; column = n },
                ))
                (omega arith);
        left = rec.left;
        fits = rec.fits;
        passed = rec.passed;
        moved =
            ap (advance junk 1) (
              sym (
                further-further s o.passed rec.after 1 (length run) (suc (length run))
                  (omega arith)))
            ∙ rec.moved
            ∙ ap (λ (t : Scanner). some (tt, t))
                (further-further s o.passed rec.passed 1 (suc (length run)) (suc (suc (length run)))
                  (omega arith));
        behind = rec.behind;
        fits_passed = rec.fits_passed;
      }
