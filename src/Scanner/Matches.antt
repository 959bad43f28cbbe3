-- ===== src/Scanner/Matches.antt =====
-- vm/parser.cpp: the loop of `keyword_match`, and the keyword that stands in front of a text.
use marius.Base.{
  Bool-cases, inl, inr, ◌∙◌, sym, ltb, ℕ, ◌+◌, ◌<◌, ◌≤◌, ◌≡◌, refl, ap, Bool, true, false, not,
  ◌&&◌, Option, none, some, List, [], ◌∷◌, ◌++◌, length, ◌==◌, take, drop, get_or, if◌then◌else◌,
  arith,
}
use marius.Ast.{Bytes}
use marius.Table.Bucket.{equal}
use marius.Base.Slices.{take-append, drop-append, length-drop, get_or-append}
use marius.Scanner.Input
use marius.Scanner.Input.{Input, first}
use marius.Scanner.Token.{Token}
use marius.Scanner.Reads.{next_str-text, Serves, text}
use marius.Scanner.Gathers.{seen-further, further, seen}
use marius.Scanner.Tokens.{◌>>◌, ◌>>=◌, Scanner, next_str, advance, isalpha}
use marius.Scanner.Next.{match_keywords}

-- Whether a word ends in front of a byte.
abbrev pub ends : ℕ → Bool
ends c = not (isalpha c) && not (c == b'_')

-- Whether a keyword stands in front of a text, and the word ends there.
abbrev pub stands : Bytes → List ℕ → Bool
stands k w = equal (take (length k) w) k && ends (get_or w (length k) 0)

abbrev pub keyword_at : List (Bytes × Token) → List ℕ → Option (Bytes × Token)
keyword_at [] w = none
keyword_at (k ∷ ks) w = if stands k.0 w then some k else keyword_at ks w

abbrev pub token_of : Option (Bytes × Token) → Option Token
token_of none = none
token_of (some k) = some k.1

abbrev pub size_of : Option (Bytes × Token) → ℕ
size_of none = 0
size_of (some k) = length k.0

-- The text is longer than each keyword, and one byte more.
abbrev pub Longer : List ℕ → List (Bytes × Token) → Type 0
Longer w [] = Unit {0}
Longer w (k ∷ ks) = (length k.0 + 1 < length w) × Longer w ks

abbrev pub Short : List (Bytes × Token) → Type 0
Short [] = Unit {0}
Short (k ∷ ks) = (length k.0 + 1 < 1023) × Short ks

-- What looking for a keyword in front of the text w gives.
pub record Looks (junk : ℕ → ℕ) (ks : List (Bytes × Token)) (s : Scanner) (w : List ℕ)
    : Type 0 where
  pub after : Input
  pub met :
      match_keywords junk ks s
      ≡ some (token_of (keyword_at ks w), further s after (size_of (keyword_at ks w)))
  pub left : text after ≡ drop (size_of (keyword_at ks w)) w
  pub fits : length after.held ≤ 1023

module _ (junk : ℕ → ℕ) (count : ℕ) (s : Scanner) (r : Serves junk count s.input) where
  next_str-serves : next_str junk count s ≡ some (true, seen s r.after)
  unfolding next_str
  next_str-serves = rw (r.met) refl

advance-held :
    (junk : ℕ → ℕ) (count : ℕ) (s : Scanner) (i : Input)
    → count < length i.held
    → advance junk count (seen s i)
      ≡ some (
        tt,
        further s
            (record i { before = i.before ++ take count i.held; held = drop count i.held })
            count,
      )
unfolding advance Input.advance
advance-held junk count s i lt =
    let so : ltb (length i.held) count ≡ false = ground arith in
    rw (advance, Input.advance, so) refl

-- One keyword of the table.
module _ (junk : ℕ → ℕ) (k : Bytes × Token) (ks : List (Bytes × Token)) (s : Scanner)
    (one : Serves junk (length k.0) s.input) (two : Serves junk (length k.0 + 1) one.after) where
  keyword-differs :
      equal (take (length k.0) one.after.held) k.0 ≡ false
      → match_keywords junk (k ∷ ks) s ≡ match_keywords junk ks (seen s one.after)
  unfolding match_keywords
  keyword-differs other =
      rw (match_keywords, ◌>>=◌, next_str-serves junk (length k.0) s one, other) refl

  keyword-goes_on :
      equal (take (length k.0) one.after.held) k.0 ≡ true
      → ends (get_or two.after.held (length k.0) 0) ≡ false
      → match_keywords junk (k ∷ ks) s ≡ match_keywords junk ks (seen s two.after)
  unfolding match_keywords
  keyword-goes_on same more =
      rw
        (
          match_keywords,
          ◌>>=◌,
          next_str-serves junk (length k.0) s one,
          same,
          next_str-serves junk (length k.0 + 1) (seen s one.after) two,
          more,
        )
        refl

  keyword-stands :
      (passed : Input)
      → equal (take (length k.0) one.after.held) k.0 ≡ true
      → ends (get_or two.after.held (length k.0) 0) ≡ true
      → advance junk (length k.0) (seen s two.after) ≡ some (tt, further s passed (length k.0))
      → match_keywords junk (k ∷ ks) s ≡ some (some k.1, further s passed (length k.0))
  unfolding match_keywords
  keyword-stands passed same end moved =
      rw
        (
          match_keywords,
          ◌>>=◌,
          next_str-serves junk (length k.0) s one,
          same,
          next_str-serves junk (length k.0 + 1) (seen s one.after) two,
          end,
        )
        (rw (◌>>◌, ◌>>=◌, moved) refl)

module _ (junk : ℕ → ℕ) (w : List ℕ) where
  Looks-on :
      (k : Bytes × Token) (ks : List (Bytes × Token)) (s : Scanner) (i : Input)
      → stands k.0 w ≡ false
      → match_keywords junk (k ∷ ks) s ≡ match_keywords junk ks (seen s i)
      → Looks junk ks (seen s i) w
      → Looks junk (k ∷ ks) s w
  Looks-on k ks s i other same rec =
      let q : keyword_at ks w ≡ keyword_at (k ∷ ks) w =
        ap (λ (b : Bool). if b then some k else keyword_at ks w) (sym other) in
      record {
        after = rec.after;
        met =
            same
            ∙ rec.met
            ∙ ap
                (λ (o : Option (Bytes × Token)). some (token_of o, further s rec.after (size_of o)))
                q;
        left = rec.left ∙ ap (λ (o : Option (Bytes × Token)). drop (size_of o) w) q;
        fits = rec.fits;
      }

  Looks-here :
      (k : Bytes × Token) (ks : List (Bytes × Token)) (s : Scanner) (i : Input)
      → stands k.0 w ≡ true
      → match_keywords junk (k ∷ ks) s ≡ some (some k.1, further s i (length k.0))
      → text i ≡ drop (length k.0) w
      → length i.held ≤ 1023
      → Looks junk (k ∷ ks) s w
  Looks-here k ks s i here met left fits =
      let q : some k ≡ keyword_at (k ∷ ks) w =
        ap (λ (b : Bool). if b then some k else keyword_at ks w) (sym here) in
      record {
        after = i;
        met =
            met ∙ ap (λ (o : Option (Bytes × Token)). some (token_of o, further s i (size_of o))) q;
        left = left ∙ ap (λ (o : Option (Bytes × Token)). drop (size_of o) w) q;
        fits = fits;
      }

  pub match_keywords-Looks :
      (ks : List (Bytes × Token)) (s : Scanner)
      → text s.input ≡ w
      → length s.input.held ≤ 1023
      → Short ks
      → Longer w ks
      → Looks junk ks s w
  unfolding match_keywords
  match_keywords-Looks [] s e fits short long = record {
    after = s.input;
    met = ap (λ (t : Scanner). some (none, t)) (seen-further s s.input);
    left = e;
    fits = fits;
  }
  match_keywords-Looks (k ∷ ks) s e fits (short, shorts) (long, longs) =
      let n : ℕ = length k.0 in
      let one =
        next_str-text junk n s.input fits (omega arith) (omega (arith, long, ap length e)) in
      let two =
        next_str-text junk (n + 1) one.after one.fits short
          (omega (arith, long, ap length (one.same ∙ e))) in
      let same = one.same ∙ e in
      let same' = two.same ∙ same in
      let front : equal (take n one.after.held) k.0 ≡ equal (take n w) k.0 =
        ap (λ (v : List ℕ). equal v k.0)
          (sym (take-append n one.after.held one.after.file (omega (arith, one.enough)))
            ∙ ap (take n) same) in
      let next : ends (get_or two.after.held n 0) ≡ ends (get_or w n 0) = ap ends (
        sym (get_or-append n two.after.held two.after.file 0 (omega (arith, two.enough)))
        ∙ ap (λ (v : List ℕ). get_or v n 0) same') in
      elim (Bool-cases (equal (take n w) k.0)) [
        | inr other ↦
            Looks-on k ks s one.after (ap (λ (b : Bool). b && ends (get_or w n 0)) other)
              (keyword-differs junk k ks s one two (front ∙ other))
              (match_keywords-Looks ks (seen s one.after) same one.fits shorts longs)
        | inl met ↦ elim (Bool-cases (ends (get_or w n 0))) [
          | inr goes_on ↦
              Looks-on k ks s two.after (ap (λ (b : Bool). b && ends (get_or w n 0)) met ∙ goes_on)
                (keyword-goes_on junk k ks s one two (front ∙ met) (next ∙ goes_on))
                (match_keywords-Looks ks (seen s two.after) same' two.fits shorts longs)
          | inl end ↦
              Looks-here k ks s
                (record two.after {
                  before = two.after.before ++ take n two.after.held;
                  held = drop n two.after.held;
                })
                (ap (λ (b : Bool). b && ends (get_or w n 0)) met ∙ end)
                (keyword-stands junk k ks s one two
                  (record two.after {
                    before = two.after.before ++ take n two.after.held;
                    held = drop n two.after.held;
                  })
                  (front ∙ met) (next ∙ end)
                  (advance-held junk n s two.after (omega (arith, two.enough))))
                (sym (drop-append n two.after.held two.after.file (omega (arith, two.enough)))
                  ∙ ap (drop n) same')
                (omega (arith, two.fits, length-drop n two.after.held))
        ]
      ]
