-- ===== src/Optimizer/Same.antt =====
-- vm/compiler.cpp: `Compiler::optimize` against the registers that its code computes, for code that
-- runs from its first instruction to its last. The jumps keep their operands, so code that jumps
-- over a dropped move is not what this states.
use marius.Base.{
  subst, ℕ, zero, suc, ◌+◌, ◌≤◌, ◌≡◌, refl, ap, sym, ◌∙◌, Bool, true, false, ◌&&◌, Option, none,
  some, List, [], ◌∷◌, ◌++◌, ◌==◌, length, take, drop, get_or, if◌then◌else◌, Bool-cases, inl, inr,
  ==_iff, arith, length-append,
}
use marius.Instruction.{Opcode, opcode, to_opcode, insn_len, to_opcode-opcode}
use marius.Instruction.Stream.{Fits, done, more}
use marius.Optimizer.{emit, moves_back, is_movr, optimize_from, optimize}

abbrev pub Registers {ℓ} : Type ℓ → Type ℓ
Registers A = ℕ → A

-- What the instructions other than MOVR do to the registers, by their bytes.
abbrev pub Others {ℓ} : Type ℓ → Type ℓ
Others A = Opcode → List ℕ → Registers A → Registers A

module _ {ℓ} {A : Type ℓ} where
  abbrev pub write : Registers A → ℕ → A → Registers A
  write r to v k = if to == k then v else r k

  abbrev pub step : Others A → Opcode → List ℕ → Registers A → Registers A
  step other Opcode.movr bytes r = write r (get_or bytes 1 0) (r (get_or bytes 2 0))
  step other op bytes r = other op bytes r

  -- The instructions of the code, one after the other.
  unfoldable pub execute : Others A → ℕ → List ℕ → Registers A → Option (Registers A)
  execute other fuel [] r = some r
  execute other zero (b ∷ bs) r = none
  execute other (suc fuel) (b ∷ bs) r = elim (to_opcode b) [
    | none ↦ none
    | some op ↦
        execute other fuel (drop (insn_len op) (b ∷ bs))
          (step other op (take (insn_len op) (b ∷ bs)) r)
  ]

take-length {ℓ} : {A : Type ℓ} (xs ys : List A) (n : ℕ) → n ≡ length xs → take n (xs ++ ys) ≡ xs
take-length [] ys zero h = refl
take-length [] ys (suc n) h = absurd (omega arith)
take-length (x ∷ xs) ys zero h = absurd (omega arith)
take-length (x ∷ xs) ys (suc n) h = ap (◌∷◌ x) (take-length xs ys n (omega arith))

drop-length {ℓ} : {A : Type ℓ} (xs ys : List A) (n : ℕ) → n ≡ length xs → drop n (xs ++ ys) ≡ ys
drop-length [] ys zero h = refl
drop-length [] ys (suc n) h = absurd (omega arith)
drop-length (x ∷ xs) ys zero h = absurd (omega arith)
drop-length (x ∷ xs) ys (suc n) h = drop-length xs ys n (omega arith)

module _ {ℓ} {A : Type ℓ} (other : Others A) where
  execute-instruction :
      (op : Opcode) (xs rest : List ℕ) (fuel : ℕ) (r : Registers A)
      → length xs + 1 ≡ insn_len op
      → execute other (suc fuel) (opcode op ∷ (xs ++ rest)) r
        ≡ execute other fuel rest (step other op (opcode op ∷ xs) r)
  unfolding execute
  execute-instruction op xs rest fuel r n =
      rw
        (
          to_opcode-opcode op,
          take-length (opcode op ∷ xs) rest (insn_len op) (omega arith),
          drop-length (opcode op ∷ xs) rest (insn_len op) (omega arith),
          execute,
        )
        refl

optimize_from-instruction :
    (past : ℕ → ℕ) (op : Opcode) (xs rest : List ℕ) (fuel : ℕ) (skip : Bool)
    → length xs + 1 ≡ insn_len op
    → optimize_from past (suc fuel) skip (opcode op ∷ (xs ++ rest))
      ≡ emit
          (is_movr op && skip)
          (opcode op ∷ xs)
          (optimize_from past fuel (is_movr op && moves_back past (opcode op ∷ (xs ++ rest))) rest)
unfolding optimize_from
optimize_from-instruction past op xs rest fuel skip n =
    rw
      (
        to_opcode-opcode op,
        take-length (opcode op ∷ xs) rest (insn_len op) (omega arith),
        drop-length (opcode op ∷ xs) rest (insn_len op) (omega arith),
        optimize_from,
      )
      refl

module _ {ℓ} {A : Type ℓ} (other : Others A) (past : ℕ → ℕ) where
  -- What `skip_next` says of the registers: if the next instruction is a MOVR, it moves what is
  -- there already.
  abbrev Undone : Bool → List ℕ → Registers A → Type ℓ
  Undone skip code r =
      skip ≡ true → (x y : ℕ) (rest : List ℕ) → code ≡ opcode Opcode.movr ∷ x ∷ y ∷ rest → r y ≡ r x

  Undone-movr :
      (a b : ℕ) (rest : List ℕ) (r : Registers A)
      → Undone (moves_back past (opcode Opcode.movr ∷ a ∷ b ∷ rest)) rest (write r a (r b))
  unfolding moves_back opcode
  Undone-movr a b rest r back x y t starts =
      let found : moves_back past (opcode Opcode.movr ∷ a ∷ b ∷ opcode Opcode.movr ∷ x ∷ y ∷ t)
          ≡ true =
        subst (λ (l : List ℕ). moves_back past (opcode Opcode.movr ∷ a ∷ b ∷ l) ≡ true) starts
          back in
      let to_b : x ≡ b = ground (arith, found, ==_iff x b) in
      let to_a : y ≡ a = ground (arith, found, ==_iff y a) in
      let same = ap r to_b in ground (arith, same, ==_iff a y)

  Undone-next :
      (op : Opcode) (xs rest : List ℕ) (r : Registers A)
      → length xs + 1 ≡ insn_len op
      → Undone
          (is_movr op && moves_back past (opcode op ∷ (xs ++ rest)))
          rest
          (step other op (opcode op ∷ xs) r)
  unfolding insn_len
  Undone-next Opcode.movr (a ∷ b ∷ []) rest r n = Undone-movr a b rest r
  Undone-next Opcode.movr [] rest r n = absurd (omega arith)
  Undone-next Opcode.movr (a ∷ []) rest r n = absurd (omega arith)
  Undone-next Opcode.movr (a ∷ b ∷ c ∷ xs) rest r n = absurd (omega arith)
  Undone-next _ xs rest r n = λ no. ground arith

  step-skipped :
      (op : Opcode) (xs rest : List ℕ) (r : Registers A)
      → is_movr op ≡ true
      → length xs + 1 ≡ insn_len op
      → Undone true (opcode op ∷ (xs ++ rest)) r
      → step other op (opcode op ∷ xs) r ≡ r
  unfolding insn_len
  step-skipped Opcode.movr (a ∷ b ∷ []) rest r m n u =
      let same : r b ≡ r a = u refl a b rest refl in
      let at' : (k : ℕ) → write r a (r b) k ≡ r k = λ k. elim (Bool-cases (a == k)) [
        | inl e ↦ rw e (same ∙ ap r ((==_iff a k).0 e))
        | inr e ↦ rw e refl
      ] in
      λ i k. at' k i
  step-skipped Opcode.movr [] rest r m n u = absurd (omega arith)
  step-skipped Opcode.movr (a ∷ []) rest r m n u = absurd (omega arith)
  step-skipped Opcode.movr (a ∷ b ∷ c ∷ xs) rest r m n u = absurd (omega arith)
  step-skipped _ xs rest r m n u = absurd (ground arith)

  -- The output of the loop, and the registers to which it and the code come.
  record Same (fuel : ℕ) (skip : Bool) (code : List ℕ) (r : Registers A) : Type ℓ where
    out : List ℕ
    put_out : optimize_from past fuel skip code ≡ some out
    last : Registers A
    before : (f : ℕ) → length code ≤ f → execute other f code r ≡ some last
    after : (f : ℕ) → length out ≤ f → execute other f out r ≡ some last

  execute-front :
      (op : Opcode) (xs rest : List ℕ) (r : Registers A) (last : Registers A)
      → length xs + 1 ≡ insn_len op
      → ((f : ℕ)
          → length rest ≤ f
          → execute other f rest (step other op (opcode op ∷ xs) r) ≡ some last)
      → (f : ℕ) → length (opcode op ∷ (xs ++ rest)) ≤ f
      → execute other f (opcode op ∷ (xs ++ rest)) r ≡ some last
  execute-front op xs rest r last n h zero le = absurd (omega arith)
  execute-front op xs rest r last n h (suc f) le =
      execute-instruction other op xs rest f r n ∙ h f (omega (arith, length-append xs rest))

  Same-instruction :
      (op : Opcode) (xs rest : List ℕ) (fuel : ℕ) (skip : Bool) (r : Registers A)
      → length xs + 1 ≡ insn_len op
      → Undone skip (opcode op ∷ (xs ++ rest)) r
      → Same fuel
          (is_movr op && moves_back past (opcode op ∷ (xs ++ rest)))
          rest
          (step other op (opcode op ∷ xs) r)
      → Same (suc fuel) skip (opcode op ∷ (xs ++ rest)) r
  Same-instruction op xs rest fuel skip r n u t =
      let later =
        optimize_from past fuel (is_movr op && moves_back past (opcode op ∷ (xs ++ rest))) rest in
      elim (Bool-cases (is_movr op && skip)) [
        | inl e ↦
            let still = step-skipped op xs rest r (ground arith) n (λ k. u (ground arith)) in
            record {
              out = t.out;
              put_out =
                  optimize_from-instruction past op xs rest fuel skip n
                  ∙ ap (λ (b : Bool). emit b (opcode op ∷ xs) later) e
                  ∙ t.put_out;
              last = t.last;
              before = execute-front op xs rest r t.last n t.before;
              after = λ f le. ap (execute other f t.out) (sym still) ∙ t.after f le;
            }
        | inr e ↦ record {
          out = opcode op ∷ (xs ++ t.out);
          put_out =
              optimize_from-instruction past op xs rest fuel skip n
              ∙ ap (λ (b : Bool). emit b (opcode op ∷ xs) later) e
              ∙ ap (emit false (opcode op ∷ xs)) t.put_out;
          last = t.last;
          before = execute-front op xs rest r t.last n t.before;
          after = execute-front op xs t.out r t.last n t.after;
        }
      ]

  optimize_from-Same :
      (ops : List Opcode) (code : List ℕ) (fuel : ℕ) (skip : Bool) (r : Registers A)
      → Fits ops code
      → length code ≤ fuel
      → Undone skip code r
      → Same fuel skip code r
  unfolding optimize_from execute
  optimize_from-Same [] code fuel skip r done h u = record {
    out = [];
    put_out = refl;
    last = r;
    before = λ f le. refl;
    after = λ f le. refl;
  }
  optimize_from-Same (op ∷ ops) code zero skip r (more xs rest n f e) h u =
      absurd (omega (arith, ap length e))
  optimize_from-Same (op ∷ ops) code (suc fuel) skip r (more xs rest n f e) h u =
      let next = is_movr op && moves_back past (opcode op ∷ (xs ++ rest)) in
      let room : length rest ≤ fuel = omega (arith, ap length e, length-append xs rest) in
      subst (λ (c : List ℕ). Same (suc fuel) skip c r) (sym e)
        (Same-instruction op xs rest fuel skip r n (subst (λ (c : List ℕ). Undone skip c r) e u) (
          optimize_from-Same ops rest fuel next (step other op (opcode op ∷ xs) r) f room
            (Undone-next op xs rest r n)))

  -- The optimised code of whole instructions, and the code itself, run from the first instruction to
  -- the last, come to the same registers, whatever the instructions other than MOVR do.
  pub optimize-execute :
      (ops : List Opcode) (code : List ℕ) (r : Registers A)
      → Fits ops code
      → (out : List ℕ) × (optimize past code ≡ some out)
        × ((last : Registers A) × (execute other (length code) code r ≡ some last)
            × (execute other (length out) out r ≡ some last))
  unfolding optimize
  optimize-execute ops code r f =
      let t =
        optimize_from-Same ops code (length code) false r f (omega arith) (λ no. ground arith) in
      (
        t.out,
        t.put_out,
        (t.last, t.before (length code) (omega arith), t.after (length t.out) (omega arith)),
      )
