-- ===== src/Scanner/Scratch.antt =====
-- vm/buffer.hpp: `ScratchBuffer`. Memory that was never written holds what the allocator gives,
-- `junk` by position. An access out of bounds is `none`.
use marius.Base.{
  ℕ, zero, suc, ◌+◌, ◌-◌, ◌≤◌, ◌<◌, ◌≡◌, refl, ap, ◌∙◌, Bool, true, false, Option, none, some, List,
  [], ◌∷◌, ◌++◌, ◌==◌, length, take, set, get_elem?, if◌then◌else◌, ltb, arith, length-set,
  length-append, ==_iff,
}

pub record ScratchBuffer : Type 0 where
  pub buf : List ℕ
  pub len : ℕ
  pub capa : ℕ

-- New memory of n bytes, as it is from position i on.
abbrev pub allocate : (ℕ → ℕ) → ℕ → ℕ → List ℕ
allocate junk i zero = []
allocate junk i (suc n) = junk i ∷ allocate junk (suc i) n

unfoldable pub new_buffer : (ℕ → ℕ) → ScratchBuffer
new_buffer junk = record { buf = allocate junk 0 32; len = 0; capa = 32 }

-- The growth in `append`: a `memcpy` of `len-1` bytes to new memory.
unfoldable pub grow : (ℕ → ℕ) → ScratchBuffer → ScratchBuffer
grow junk b = record {
  buf = take (b.len - 1) b.buf ++ allocate junk (b.len - 1) (b.capa + 32 - (b.len - 1));
  len = b.len;
  capa = b.capa + 32;
}

-- `buf[len] = c; len++`
unfoldable pub put_last : ScratchBuffer → ℕ → ScratchBuffer
put_last b c = record b { buf = set b.buf b.len c; len = suc b.len }

unfoldable pub append : (ℕ → ℕ) → ScratchBuffer → ℕ → ScratchBuffer
unfolding grow put_last
append junk b c = put_last (if b.len == b.capa then grow junk b else b) c

-- `last`: with no byte it reads in front of the buffer.
unfoldable pub last : ScratchBuffer → Option ℕ
last b = if b.len == 0 then none else get_elem? b.buf (b.len - 1)

-- `remove_last`, of a buffer that is not empty
unfoldable pub remove_last : ScratchBuffer → ScratchBuffer
remove_last b = record b { len = b.len - 1 }

-- The bytes that `strdup` copies.
abbrev pub until_zero : List ℕ → List ℕ
until_zero [] = []
until_zero (zero ∷ bs) = []
until_zero (suc n ∷ bs) = suc n ∷ until_zero bs

-- `copy_out` writes a 0 behind the bytes, which in a full buffer is out of bounds.
unfoldable pub copy_out : ScratchBuffer → Option (List ℕ)
copy_out b =
    if ltb b.len b.capa then some (until_zero (take (suc b.len) (set b.buf b.len 0))) else none

-- The bytes gathered so far.
abbrev pub gathered : ScratchBuffer → List ℕ
gathered b = take b.len b.buf

pub record IsValid (b : ScratchBuffer) : Type 0 where
  pub size : length b.buf ≡ b.capa
  pub room : b.len ≤ b.capa
  pub some_room : 0 < b.capa

pub length-allocate : (junk : ℕ → ℕ) (i n : ℕ) → length (allocate junk i n) ≡ n
length-allocate junk i zero = refl
length-allocate junk i (suc n) = ap suc (length-allocate junk (suc i) n)

length-take : (n : ℕ) (xs : List ℕ) → n ≤ length xs → length (take n xs) ≡ n
length-take zero xs h = refl
length-take (suc n) [] h = absurd (omega arith)
length-take (suc n) (x ∷ xs) h = ap suc (length-take n xs (omega arith))

pub take-set :
    (n : ℕ) (xs : List ℕ) (c : ℕ) → n < length xs → take (suc n) (set xs n c) ≡ take n xs ++ c ∷ []
take-set zero [] c h = absurd (omega arith)
take-set (suc n) [] c h = absurd (omega arith)
take-set zero (x ∷ xs) c h = refl
take-set (suc n) (x ∷ xs) c h = ap (◌∷◌ x) (take-set n xs c (omega arith))

-- What grown memory holds of the bytes gathered: all but the last.
take-grown :
    (junk : ℕ → ℕ) (xs ys : List ℕ) (n i : ℕ)
    → length xs ≡ n
    → take (suc n) (xs ++ (junk i ∷ ys)) ≡ xs ++ junk i ∷ []
take-grown junk [] ys zero i h = refl
take-grown junk [] ys (suc n) i h = absurd (omega arith)
take-grown junk (x ∷ xs) ys zero i h = absurd (omega arith)
take-grown junk (x ∷ xs) ys (suc n) i h = ap (◌∷◌ x) (take-grown junk xs ys n i (omega arith))

grow-IsValid : (junk : ℕ → ℕ) (b : ScratchBuffer) → IsValid b → IsValid (grow junk b)
unfolding grow
grow-IsValid junk b h =
    let size = h.size in
    let room = h.room in
    let taken = length-take (b.len - 1) b.buf (omega arith) in
    record {
      size =
          simp length-append
            (omega (arith, taken, length-allocate junk (b.len - 1) (b.capa + 32 - (b.len - 1))));
      room = omega arith;
      some_room = omega arith;
    }

put_last-gathered :
    (b : ScratchBuffer) (c : ℕ)
    → IsValid b
    → b.len < b.capa
    → gathered (put_last b c) ≡ gathered b ++ c ∷ []
unfolding put_last
put_last-gathered b c h lt = let size = h.size in take-set b.len b.buf c (omega arith)

put_last-IsValid : (b : ScratchBuffer) (c : ℕ) → IsValid b → b.len < b.capa → IsValid (put_last b c)
unfolding put_last
put_last-IsValid b c h lt = record {
  size = length-set b.buf b.len c ∙ h.size;
  room = omega arith;
  some_room = h.some_room;
}

gathered-grow :
    (junk : ℕ → ℕ) (b : ScratchBuffer)
    → IsValid b
    → 0 < b.len
    → gathered (grow junk b) ≡ take (b.len - 1) b.buf ++ junk (b.len - 1) ∷ []
unfolding grow
gathered-grow junk b h lt =
    let size = h.size in
    let room = h.room in
    let kept = take (b.len - 1) b.buf in
    let new : ℕ = b.capa + 32 - (b.len - 1) in
    let one : new ≡ suc (new - 1) = omega arith in
    let again : b.len ≡ suc (b.len - 1) = omega arith in
    ap (λ (n : ℕ). take n (kept ++ allocate junk (b.len - 1) new)) again
    ∙ ap (λ (n : ℕ). take (suc (b.len - 1)) (kept ++ allocate junk (b.len - 1) n)) one
    ∙ take-grown junk kept (allocate junk (suc (b.len - 1)) (new - 1)) (b.len - 1) (b.len - 1)
        (length-take (b.len - 1) b.buf (omega arith))

-- The buffer in which `append` writes its byte, with room for it.
record Ready (junk : ℕ → ℕ) (b x : ScratchBuffer) (full : Bool) : Type 0 where
  valid : IsValid x
  free : x.len < x.capa
  holds :
      gathered x ≡ (if full then take (b.len - 1) b.buf ++ junk (b.len - 1) ∷ [] else gathered b)

ready :
    (junk : ℕ → ℕ) (b : ScratchBuffer) (full : Bool)
    → (b.len == b.capa) ≡ full
    → IsValid b
    → Ready junk b (if full then grow junk b else b) full
unfolding grow
ready junk b true e h =
    let room = h.some_room in
    let same : b.len ≡ b.capa = (==_iff b.len b.capa).0 e in
    record {
      valid = grow-IsValid junk b h;
      free = omega arith;
      holds = gathered-grow junk b h (omega arith);
    }
ready junk b false e h =
    let room = h.room in
    record { valid = h; free = ground (arith, ==_iff b.len b.capa); holds = refl }

pub append-IsValid :
    (junk : ℕ → ℕ) (b : ScratchBuffer) (c : ℕ) → IsValid b → IsValid (append junk b c)
unfolding append
append-IsValid junk b c h =
    let r = ready junk b (b.len == b.capa) refl h in
    put_last-IsValid (if b.len == b.capa then grow junk b else b) c r.valid r.free

-- What is gathered after an append: the byte stands behind what was gathered, of which, when the
-- buffer was full, the last byte is lost, and what new memory holds is in its place.
pub gathered-append :
    (junk : ℕ → ℕ) (b : ScratchBuffer) (c : ℕ)
    → IsValid b
    → gathered (append junk b c)
      ≡ (if b.len == b.capa then take (b.len - 1) b.buf ++ junk (b.len - 1) ∷ [] else gathered b)
        ++ c ∷ []
unfolding append
gathered-append junk b c h =
    let r = ready junk b (b.len == b.capa) refl h in
    put_last-gathered (if b.len == b.capa then grow junk b else b) c r.valid r.free
    ∙ ap (λ (l : List ℕ). l ++ c ∷ []) r.holds
