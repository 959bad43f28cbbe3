-- ===== src/Scanner/Reads.antt =====
-- vm/parser.cpp: the buffered input as a text, what is held and then what the file has still to give.
use marius.Base.{
  some, inr, inl, Bool-cases, ℕ, ◌+◌, ◌-◌, ◌<◌, ◌≤◌, ◌≡◌, refl, ap, sym, ◌∙◌, true, false, List, [],
  ◌∷◌, ◌++◌, length, take, drop, ltb, append_assoc, arith, length-append,
}
use marius.Base.Slices.{take-drop_all, length-take_le, length-take_all, length-drop, drop-append}
use marius.Scanner.Input.{read_c, advance, next_c, first, Input, next_str}

abbrev pub text : Input → List ℕ
text i = i.held ++ i.file

-- What a request that is met gives: more bytes than asked for are held, and the text is the same.
pub record Serves (junk : ℕ → ℕ) (count : ℕ) (i : Input) : Type 0 where
  pub after : Input
  pub met : next_str junk count i ≡ (true, after)
  pub same : text after ≡ text i
  pub enough : count < length after.held
  pub fits : length after.held ≤ 1023

module _ (junk : ℕ → ℕ) (count : ℕ) (i : Input) (le : length i.held ≤ count) (room : count < 1023)
    (more : count < length (text i)) where
  abbrev space : ℕ
  space = 1023 - length i.held

  read_enough : count < length i.held + length (take space i.file)
  read_enough =
      let l = length-append i.held i.file in
      let k : count - length i.held < length i.file = omega arith in
      let t = length-take_all (count - length i.held) space i.file k (omega arith) in omega arith

  Serves-read : (got : List ℕ) → take space i.file ≡ got → Serves junk count i
  unfolding next_str
  Serves-read [] e = absurd (omega (arith, read_enough, ap length e))
  Serves-read (b ∷ got) e =
      let held : List ℕ = i.held ++ b ∷ got in
      let enough : count < length held =
        omega (arith, read_enough, ap length e, length-append i.held (b ∷ got)) in
      let held_few : ltb count (length i.held) ≡ false = ground arith in
      let held_enough : ltb (length held) count ≡ false = ground arith in
      record {
        after = record i { has_buffer = true; before = []; held = held; file = drop space i.file };
        met = rw (held_few, e, held_enough) refl;
        same =
            append_assoc i.held (b ∷ got) (drop space i.file)
            ∙ ap (λ (l : List ℕ). i.held ++ (l ++ drop space i.file)) (sym e)
            ∙ ap (λ (l : List ℕ). i.held ++ l) (take-drop_all space i.file);
        enough = enough;
        fits =
            omega (arith, length-take_le space i.file, ap length e, length-append i.held (b ∷ got));
      }

module _ (junk : ℕ → ℕ) (count : ℕ) (i : Input) where
  pub next_str-text :
      length i.held ≤ 1023 → count < 1023 → count < length (text i) → Serves junk count i
  unfolding next_str
  next_str-text fits room more = elim (Bool-cases (ltb count (length i.held))) [
    | inl so ↦ record {
      after = i;
      met = rw so refl;
      same = refl;
      enough = ground arith;
      fits = fits;
    }
    | inr few ↦
        Serves-read junk count i (ground arith) room more (take (1023 - length i.held) i.file) refl
  ]

first-append : (xs ys : List ℕ) → 0 < length xs → first (xs ++ ys) ≡ first xs
first-append [] ys h = absurd (omega arith)
first-append (x ∷ xs) ys h = refl

-- The next byte is given, and passed.
pub record Offers (junk : ℕ → ℕ) (i : Input) : Type 0 where
  pub after : Input
  pub met : next_c junk i ≡ (first (text i), after)
  pub same : text after ≡ text i
  pub again : next_c junk after ≡ (first (text i), after)
  pub fits : length after.held ≤ 1023
  pub passed : Input
  pub moved : advance 1 after ≡ some passed
  pub left : text passed ≡ drop 1 (text i)
  pub fits_passed : length passed.held ≤ 1023

-- While more than one byte of the text is left, `next_c` gives its first byte, reads from the file where
-- it must, and loses nothing; asked again it gives the same byte, and `advance` takes just this byte
-- off the text.
pub next_c-text :
    (junk : ℕ → ℕ) (i : Input) → length i.held ≤ 1023 → 1 < length (text i) → Offers junk i
unfolding next_c next_str advance
next_c-text junk i fits more =
    let s = next_str-text junk 1 i fits (omega arith) more in
    let enough = s.enough in
    let some_held : 0 < length s.after.held = omega (arith, enough) in
    let e : first s.after.held ≡ first (text i) =
      sym (first-append s.after.held s.after.file some_held) ∙ ap first s.same in
    let so : ltb 1 (length s.after.held) ≡ true = ground arith in
    let room : ltb (length s.after.held) 1 ≡ false = ground arith in
    record {
      after = s.after;
      met = ap read_c s.met ∙ ap (λ (c : ℕ). (c, s.after)) e;
      same = s.same;
      again = rw (so) (ap (λ (c : ℕ). (c, s.after)) e);
      fits = s.fits;
      passed = record s.after {
        before = s.after.before ++ take 1 s.after.held;
        held = drop 1 s.after.held;
      };
      moved = rw (room) refl;
      left = sym (drop-append 1 s.after.held s.after.file some_held) ∙ ap (drop 1) s.same;
      fits_passed = omega (arith, s.fits, length-drop 1 s.after.held);
    }
