-- ===== src/Scanner/Contents.antt =====
-- vm/buffer.hpp: what a buffer holds after several appends, and what is copied out of it.
use marius.Base.{
  subst, ℕ, zero, suc, ◌+◌, ◌<◌, ◌≤◌, ◌≡◌, refl, ap, ◌∙◌, sym, true, false, none, some, List, [],
  ◌∷◌, ◌++◌, length, ◌==◌, ltb, append_assoc, append-nil, arith,
}
use marius.Scanner.Scratch.{
  ScratchBuffer, append, gathered, copy_out, until_zero, new_buffer, IsValid, gathered-append,
  append-IsValid, take-set, length-allocate,
}

abbrev pub append_all : (ℕ → ℕ) → List ℕ → ScratchBuffer → ScratchBuffer
append_all junk [] buf = buf
append_all junk (c ∷ cs) buf = append_all junk cs (append junk buf c)

-- A text without a zero byte.
abbrev pub NoZero : List ℕ → Type 0
NoZero [] = Unit {0}
NoZero (c ∷ cs) = (0 < c) × NoZero cs

-- The buffer after a run that fits.
pub record Holds (buf after : ScratchBuffer) (run : List ℕ) : Type 0 where
  pub valid : IsValid after
  pub same : after.capa ≡ buf.capa
  pub counted : after.len ≡ buf.len + length run
  pub holds : gathered after ≡ gathered buf ++ run

module _ (junk : ℕ → ℕ) where
  append-Holds :
      (buf : ScratchBuffer) (c : ℕ)
      → IsValid buf
      → buf.len < buf.capa
      → Holds buf (append junk buf c) (c ∷ [])
  unfolding append
  append-Holds buf c h room =
      let free : (buf.len == buf.capa) ≡ false = ground arith in
      record {
        valid = append-IsValid junk buf c h;
        same = rw (free) refl;
        counted = rw (free) (omega arith);
        holds = gathered-append junk buf c h ∙ rw (free) refl;
      }

  pub append_all-Holds :
      (run : List ℕ) (buf : ScratchBuffer)
      → IsValid buf
      → buf.len + length run ≤ buf.capa
      → Holds buf (append_all junk run buf) run
  append_all-Holds [] buf h room = record {
    valid = h;
    same = refl;
    counted = omega arith;
    holds = sym (append-nil (gathered buf));
  }
  append_all-Holds (c ∷ run) buf h room =
      let one = append-Holds buf c h (omega arith) in
      let rest =
        append_all-Holds run (append junk buf c) one.valid (omega (arith, one.same, one.counted)) in
      record {
        valid = rest.valid;
        same = rest.same ∙ one.same;
        counted = omega (arith, rest.counted, one.counted);
        holds =
            rest.holds
            ∙ ap (λ (l : List ℕ). l ++ run) one.holds
            ∙ append_assoc (gathered buf) (c ∷ []) run;
      }

  new_buffer-IsValid : IsValid (new_buffer junk)
  unfolding new_buffer
  new_buffer-IsValid = record {
    size = length-allocate junk 0 32;
    room = omega arith;
    some_room = omega arith;
  }

  -- The buffer that a token of at most 32 bytes is gathered in.
  pub new_buffer-Holds :
      (run : List ℕ)
      → length run ≤ 32
      → Holds (new_buffer junk) (append_all junk run (new_buffer junk)) run
  unfolding new_buffer
  new_buffer-Holds run le = append_all-Holds run (new_buffer junk) new_buffer-IsValid (omega arith)

until_zero-snoc : (xs : List ℕ) → NoZero xs → until_zero (xs ++ 0 ∷ []) ≡ xs
until_zero-snoc [] h = refl
until_zero-snoc (zero ∷ xs) (h, hs) = absurd (omega arith)
until_zero-snoc (suc n ∷ xs) (h, hs) = ap (◌∷◌ (suc n)) (until_zero-snoc xs hs)

module _ (buf : ScratchBuffer) where
  pub copy_out-gathered :
      IsValid buf → buf.len < buf.capa → NoZero (gathered buf) → copy_out buf ≡ some (gathered buf)
  unfolding copy_out
  copy_out-gathered h room full =
      let free : ltb buf.len buf.capa ≡ true = ground arith in
      let size = h.size in
      rw (free, take-set buf.len buf.buf 0 (omega arith), until_zero-snoc (gathered buf) full) refl

  pub copy_out-full : buf.len ≡ buf.capa → copy_out buf ≡ none
  unfolding copy_out
  copy_out-full e = let full : ltb buf.len buf.capa ≡ false = ground arith in rw (full) refl

module _ (junk : ℕ → ℕ) (run : List ℕ) where
  -- A run of fewer than 32 bytes is copied out as it is.
  pub copy_out-run :
      length run < 32 → NoZero run → copy_out (append_all junk run (new_buffer junk)) ≡ some run
  unfolding new_buffer
  copy_out-run lt full =
      let h = new_buffer-Holds junk run (omega arith) in
      let e : gathered (append_all junk run (new_buffer junk)) ≡ run = h.holds in
      copy_out-gathered (append_all junk run (new_buffer junk)) h.valid
        (omega (arith, h.same, h.counted)) (subst NoZero (sym e) full)
      ∙ ap some e

  pub copy_out-run_full : length run ≡ 32 → copy_out (append_all junk run (new_buffer junk)) ≡ none
  unfolding new_buffer
  copy_out-run_full e =
      let h = new_buffer-Holds junk run (omega arith) in
      copy_out-full (append_all junk run (new_buffer junk)) (omega (arith, h.same, h.counted))

pub NoZero-snoc : (run : List ℕ) (c : ℕ) → NoZero run → 0 < c → NoZero (run ++ c ∷ [])
NoZero-snoc [] c h lt = (lt, tt)
NoZero-snoc (b ∷ run) c (h, hs) lt = (h, NoZero-snoc run c hs lt)

pub append_all-snoc :
    (junk : ℕ → ℕ) (run : List ℕ) (c : ℕ) (buf : ScratchBuffer)
    → append_all junk (run ++ c ∷ []) buf ≡ append junk (append_all junk run buf) c
append_all-snoc junk [] c buf = refl
append_all-snoc junk (b ∷ run) c buf = append_all-snoc junk run c (append junk buf b)
