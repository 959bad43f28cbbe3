-- ===== src/Scanner/Words.antt =====
-- vm/parser.cpp: the token that a run of bytes makes: `id_match`.
use marius.Base.{
  sym, drop, ℕ, zero, suc, ◌+◌, ◌<◌, ◌≤◌, ◌≡◌, refl, ap, ◌∙◌, Bool, true, false, Option, none, some,
  List, [], ◌∷◌, ◌++◌, length, ◌==◌, arith, length-append,
}
use marius.Scanner.Scratch.{append, ScratchBuffer, copy_out, new_buffer}
use marius.Scanner.Input.{Input}
use marius.Scanner.Token.{Token}
use marius.Scanner.Reads.{Offers, text, next_c-text}
use marius.Scanner.Contents.{
  new_buffer-Holds, NoZero-snoc, append_all-snoc, append_all, NoZero, copy_out-run,
}
use marius.Scanner.Gathers.{
  all, &&_split, advance-offers, Passes, further, next_c-offers, gather-run, Gathers,
}
use marius.Scanner.Tokens.{is_mark, Scanner, M, str, id_match, is_id, input_size, set_string, ◌>>=◌}

module _ {A B : Type 0} (m : M A) (k : A → M B) (s t : Scanner) (a : A) where
  bind : {r : Option (B × Scanner)} → m s ≡ some (a, t) → k a t ≡ r → (m >>= k) s ≡ r
  bind e h = ap (λ (x : Option (A × Scanner)). elim x [ none ↦ none | some (b, u) ↦ k b u ]) e ∙ h

pub set_string-some :
    (buf : ScratchBuffer) (word : List ℕ) (s : Scanner)
    → copy_out buf ≡ some word
    → set_string buf s ≡ some (tt, record s { value = str word })
set_string-some buf word s e = rw (◌>>=◌, e) refl

-- A token was made of a word: the scanner stands in front of the rest.
pub record Matched (m : M (Option Token)) (s : Scanner) (tk : Token) (word : List ℕ) (count : ℕ)
    (rest : List ℕ) : Type 0 where
  pub after : Input
  pub met :
      m s ≡ some (some tk, record s { input = after; column = s.column + count; value = str word })
  pub left : text after ≡ rest
  pub fits : length after.held ≤ 1023

pub Passes-NoZero : (test : ℕ → Bool) (run : List ℕ) → test 0 ≡ false → Passes test run → NoZero run
Passes-NoZero test [] h hs = tt
Passes-NoZero test (zero ∷ run) h ps =
    absurd (ground (arith, h, (&&_split (test 0) (all test run) ps).0))
Passes-NoZero test (suc n ∷ run) h ps =
    (omega arith, Passes-NoZero test run h (&&_split (test (suc n)) (all test run) ps).1)

pub input_size-enough :
    (s : Scanner) (run : List ℕ) (rest : List ℕ)
    → text s.input ≡ run ++ rest
    → length run < input_size s
input_size-enough s run rest e =
    omega (arith, length-append s.input.held s.input.file, ap length e, length-append run rest)

module _ (junk : ℕ → ℕ) (tk : Token) (s : Scanner) (run : List ℕ) (c d : ℕ) (rest : List ℕ)
    (fits : length s.input.held ≤ 1023) (e : text s.input ≡ run ++ c ∷ d ∷ rest)
    (word : Passes is_id run) (stop : is_id c ≡ false) where
  abbrev word_buffer : ScratchBuffer
  word_buffer = append_all junk run (new_buffer junk)

  abbrev word_gathered : Gathers junk (input_size s) is_id (new_buffer junk) s run c (d ∷ rest)
  word_gathered =
      gather-run junk is_id c d rest stop (input_size s) run (new_buffer junk) s
        (input_size-enough s run (c ∷ d ∷ rest) e) word e fits

  abbrev word_offers : Offers junk word_gathered.after
  word_offers =
      next_c-text junk word_gathered.after word_gathered.fits
        (omega (arith, ap length word_gathered.left))

  -- An identifier of 1 to 31 bytes.
  pub id_match-plain :
      0 < length run
      → length run < 32
      → is_mark c ≡ false
      → Matched (id_match junk tk) s tk run (length run) (c ∷ d ∷ rest)
  unfolding id_match new_buffer
  id_match-plain some_word lt plain =
      let g = word_gathered in
      let o = word_offers in
      let s' : Scanner = further s g.after (length run) in
      let not_empty : (word_buffer.len == 0) ≡ false =
        ground (arith, some_word, (new_buffer-Holds junk run (omega arith)).counted) in
      record {
        after = o.after;
        met =
            rw
              (
                ◌>>=◌,
                g.met,
                not_empty,
                next_c-offers junk s' o,
                g.left,
                plain,
                copy_out-run junk run lt (Passes-NoZero is_id run refl word),
              )
              refl;
        left = o.same ∙ g.left;
        fits = o.fits;
      }

  -- With a `?` or `!` behind it, which is its last byte.
  pub id_match-marked :
      0 < length run
      → length run < 31
      → is_mark c ≡ true
      → Matched (id_match junk tk) s tk (run ++ c ∷ []) (suc (length run)) (d ∷ rest)
  unfolding id_match new_buffer
  id_match-marked some_word lt marked =
      let g = word_gathered in
      let o = word_offers in
      let s' : Scanner = further s g.after (length run) in
      let not_empty : (word_buffer.len == 0) ≡ false =
        ground (arith, some_word, (new_buffer-Holds junk run (omega arith)).counted) in
      let copied : copy_out (append junk word_buffer c) ≡ some (run ++ c ∷ []) =
        ap copy_out (sym (append_all-snoc junk run c (new_buffer junk)))
        ∙ copy_out-run junk (run ++ c ∷ []) (omega (arith, length-append run (c ∷ [])))
            (NoZero-snoc run c (Passes-NoZero is_id run refl word) (ground (arith, marked))) in
      record {
        after = o.passed;
        met =
            rw
              (
                ◌>>=◌,
                g.met,
                not_empty,
                next_c-offers junk s' o,
                g.left,
                marked,
                advance-offers junk s' o,
                g.left,
                copied,
              )
              (ap
                (λ (n : ℕ).
                  some (
                    some tk,
                    record s { input = o.passed; column = n; value = str (run ++ c ∷ []) },
                  ))
                (omega arith));
        left = o.left ∙ ap (drop 1) g.left;
        fits = o.fits_passed;
      }
