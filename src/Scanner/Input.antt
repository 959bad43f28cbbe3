-- ===== src/Scanner/Input.antt =====
-- vm/parser.cpp: `Parser::next_str`, which keeps 1023 bytes of the file in memory, and `next_c`. New
-- memory holds `junk`. `fread` gives as many bytes as it is asked for, or all that are left.
use marius.Base.{
  ℕ, ◌-◌, Bool, true, false, Option, none, some, List, [], ◌∷◌, ◌++◌, ltb, if◌then◌else◌, length,
  take, drop,
}
use marius.Scanner.Scratch.{allocate}

-- The buffer, if there is one, as the bytes in front of `pos_` and those from `pos_` up to `end_`; and
-- the bytes that the file has still to give.
pub record Input : Type 0 where
  pub has_buffer : Bool
  pub before : List ℕ
  pub held : List ℕ
  pub file : List ℕ

abbrev pub open_file : List ℕ → Input
open_file bytes = record { has_buffer = false; before = []; held = []; file = bytes }

abbrev pub first : List ℕ → ℕ
first [] = 0
first (b ∷ bs) = b

abbrev pub read_c : Bool × Input → ℕ × Input
read_c (false, i) = (0, i)
read_c (true, i) = (first i.held, i)

module _ (junk : ℕ → ℕ) where
  -- What stands between `pos_` and `end_` before the read: what was held is moved to the front. Where
  -- nothing was, `end_` stays where it is, and where there was no buffer, it is the end of the new one.
  abbrev pub front : Bool → List ℕ → List ℕ → List ℕ
  front false before held = allocate junk 0 1023
  front true before [] = before
  front true before (b ∷ held) = b ∷ held

  -- The read: the bytes that `fread` gave, those that it left, and whether the request is met.
  abbrev pub after_read : Input → ℕ → List ℕ → List ℕ → Bool × Input
  after_read i count [] rest = (
    false,
    record i { has_buffer = true; before = []; held = front i.has_buffer i.before i.held },
  )
  after_read i count (b ∷ bs) rest =
      let held = i.held ++ b ∷ bs in
      (
        (if ltb (length held) count then false else true),
        record { has_buffer = true; before = []; held = held; file = rest },
      )

  -- Whether `count` bytes stand at `pos_`.
  unfoldable pub next_str : ℕ → Input → Bool × Input
  next_str count i =
      let left : ℕ = length i.held in
      if ltb count left
      then (true, i)
      else after_read i count (take (1023 - left) i.file) (drop (1023 - left) i.file)

  -- The byte at `pos_`, or 0.
  unfoldable pub next_c : Input → ℕ × Input
  next_c i = read_c (next_str 1 i)

-- `pos_ += count`; it does not go behind `end_`.
unfoldable pub advance : ℕ → Input → Option Input
advance count i =
    if ltb (length i.held) count
    then none
    else some (record i { before = i.before ++ take count i.held; held = drop count i.held })
