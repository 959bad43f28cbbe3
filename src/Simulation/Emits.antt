-- ===== src/Simulation/Emits.antt =====
-- vm/ast.hpp: an operation of `ast::State` that adds bytes to the buffer and leaves what is there.
use marius.Base.{
  inl, inr, Bool-cases, ltb, ℕ, suc, ◌+◌, ◌-◌, ◌%◌, ◌^◌, ◌≡◌, refl, ap, sym, ◌∙◌, List, [], ◌∷◌,
  ◌++◌, some, length, set, append_assoc, append-nil, set-append, length-append, arith,
}
use marius.Ast.{Meta}
use marius.Instruction.{Opcode, opcode}
use marius.Codegen.State.{
  State, M, ◌>>=◌, ◌>>◌, push, push_all, instr, label, instr_label, set_label, mark, mark_line,
  write_at,
}
use marius.Simulation.Fragment.{to_bytes, encode, guard}

pub record Emits (m : M (Unit {0})) (c : List ℕ) : Type 0 where
  pub run : (s : State) → (s' : State) × (m s ≡ some (tt, s')) × (s'.buffer ≡ s.buffer ++ c)

pub bind-some :
    {A B : Type 0} (m : M A) (f : A → M B) (s s' : State) (a : A)
    → m s ≡ some (a, s')
    → (m >>= f) s ≡ f a s'
bind-some m f s s' a h = rw (h, ◌>>=◌) refl

pub Emits-then :
    {m k : M (Unit {0})} {c d : List ℕ} → Emits m c → Emits k d → Emits (m >> k) (c ++ d)
Emits-then {m = m} {k = k} {c = c} {d = d} e e' = record {
  run = λ s.
      let (s1, ran, at') = e.run s in
      let (s2, ran', at'') = e'.run s1 in
      (
        s2,
        bind-some m (λ _. k) s s1 tt ran ∙ ran',
        at'' ∙ ap (λ (b : List ℕ). b ++ d) at' ∙ append_assoc s.buffer c d,
      );
}

mark-run :
    (m : Meta) (s : State) → (s' : State) × (mark m s ≡ some (tt, s')) × (s'.buffer ≡ s.buffer)
unfolding mark
mark-run m s = elim (Bool-cases (ltb m.line 1)) [
  | inl e ↦ (s, rw e refl, refl)
  | inr e ↦
      let r = mark_line s.marks s.cur_line (length s.buffer) m.line in
      (record s { marks = r.0; cur_line = r.1 }, rw e refl, refl)
]

-- The line table is no part of the code.
pub mark-Emits : (m : Meta) {k : M (Unit {0})} {c : List ℕ} → Emits k c → Emits (mark m >> k) c
mark-Emits m {k = k} {c = c} e = record {
  run = λ s.
      let (s1, ran, at') = mark-run m s in
      let (s2, ran', at'') = e.run s1 in
      (s2, bind-some (mark m) (λ _. k) s s1 tt ran ∙ ran', at'' ∙ ap (λ (b : List ℕ). b ++ c) at');
}

push_all-Emits : (bs : List ℕ) → Emits (push_all bs) (to_bytes bs)
unfolding push_all
push_all-Emits [] = record { run = λ s. (s, refl, sym (append-nil s.buffer)) }
push_all-Emits (b ∷ bs) = record {
  run = λ s.
      let (s', ran, at') =
        (push_all-Emits bs).run (record s { buffer = s.buffer ++ (b % 2 ^ 8) ∷ [] }) in
      (s', ran, at' ∙ append_assoc s.buffer ((b % 2 ^ 8) ∷ []) (to_bytes bs));
}

pub instr-Emits : (op : Opcode) (operands : List ℕ) → Emits (instr op operands) (encode op operands)
unfolding instr
instr-Emits op operands = push_all-Emits (opcode op ∷ operands)

-- An instruction with a label: its bytes, a 0, and the label's position.
pub instr_label-run :
    (op : Opcode) (operands : List ℕ) (s : State)
    → (s' : State) × (instr_label op operands s
        ≡ some (length (s.buffer ++ encode op operands), s'))
      × (s'.buffer ≡ (s.buffer ++ encode op operands) ++ 0 ∷ [])
unfolding instr_label label push
instr_label-run op operands s =
    let (s1, ran, at') = (instr-Emits op operands).run s in
    let s2 : State = record s1 { buffer = s1.buffer ++ 0 ∷ [] } in
    (
      s2,
      bind-some (instr op operands) (λ _. _) s s1 tt ran
          ∙ ap (λ (b : List ℕ). some (length b, s2)) at',
      ap (λ (b : List ℕ). b ++ 0 ∷ []) at',
    )

-- A label that stands behind `pre` in the buffer is set to the distance over the code behind it.
pub set_label-run :
    (pre code : List ℕ) (z l : ℕ) (s : State)
    → l ≡ length pre
    → s.buffer ≡ pre ++ (z ∷ code)
    → (s' : State) × (set_label l s ≡ some (tt, s'))
      × (s'.buffer ≡ pre ++ ((length code % 2 ^ 8) ∷ code))
unfolding set_label
set_label-run pre code z l s e at' =
    let v : ℕ = (length s.buffer + 2 ^ 8 - l - 1) % 2 ^ 8 in
    let total : length s.buffer ≡ length pre + suc (length code) =
      ap length at' ∙ length-append pre (z ∷ code) in
    let distance : v ≡ length code % 2 ^ 8 = omega (arith, total) in
    (
      write_at l v s,
      refl,
      ap (λ (b : List ℕ). set b l v) at'
          ∙ set-append pre (z ∷ code) l 0 v (omega arith)
          ∙ ap (λ (n : ℕ). pre ++ (n ∷ code)) distance,
    )

-- Code behind an instruction that jumps over it.
pub guard-Emits :
    (op : Opcode) (operands : List ℕ) {body : M (Unit {0})} {c : List ℕ}
    → Emits body c
    → Emits (instr_label op operands >>= λ l. body >> set_label l) (guard op operands (length c) c)
guard-Emits op operands {body = body} {c = c} e = record {
  run = λ s.
      let pre : List ℕ = s.buffer ++ encode op operands in
      let (s1, ran1, at1) = instr_label-run op operands s in
      let (s2, ran2, at2) = e.run s1 in
      let (s3, ran3, at3) =
        set_label-run pre c 0 (length pre) s2 refl
          (at2 ∙ ap (λ (b : List ℕ). b ++ c) at1 ∙ append_assoc pre (0 ∷ []) c) in
      (
        s3,
        bind-some (instr_label op operands) (λ l. body >> set_label l) s s1 (length pre) ran1
            ∙ bind-some body (λ _. set_label (length pre)) s1 s2 tt ran2
            ∙ ran3,
        at3 ∙ append_assoc s.buffer (encode op operands) ((length c % 2 ^ 8) ∷ c),
      );
}

-- Two arms: the jump behind the first one goes over the second.
pub arms-Emits :
    (op : Opcode) (operands : List ℕ) (op' : Opcode) {body other : M (Unit {0})} {c d : List ℕ}
    → Emits body c
    → Emits other d
    → Emits
        (instr_label op operands >>= λ l.
          body >> (instr_label op' [] >>= λ k. set_label l >> (other >> set_label k)))
        (guard op operands (length c + 2) (c ++ guard op' [] (length d) d))
arms-Emits op operands op' {body = body} {other = other} {c = c} {d = d} e e' = record {
  run = λ s.
      let pre : List ℕ = s.buffer ++ encode op operands in
      let (s1, ran1, at1) = instr_label-run op operands s in
      let (s2, ran2, at2) = e.run s1 in
      let (s3, ran3, at3) = instr_label-run op' [] s2 in
      let jump : List ℕ = encode op' [] in
      let buf2 : s2.buffer ≡ (pre ++ 0 ∷ []) ++ c = at2 ∙ ap (λ (b : List ℕ). b ++ c) at1 in
      let code1 : List ℕ = (c ++ encode op' []) ++ 0 ∷ [] in
      let buf3 : s3.buffer ≡ pre ++ (0 ∷ code1) =
        at3 ∙ ap (λ (b : List ℕ). (b ++ jump) ++ 0 ∷ []) buf2 ∙ simp append_assoc refl in
      let (s4, ran4, at4) = set_label-run pre code1 0 (length pre) s3 refl buf3 in
      let (s5, ran5, at5) = e'.run s4 in
      let size : length code1 ≡ length c + 2 = simp length-append (omega arith) in
      let pre' : List ℕ = pre ++ ((length code1 % 2 ^ 8) ∷ (c ++ encode op' [])) in
      let k : ℕ = length (s2.buffer ++ encode op' []) in
      let buf5 : s5.buffer ≡ pre' ++ (0 ∷ d) =
        at5 ∙ ap (λ (b : List ℕ). b ++ d) at4 ∙ simp append_assoc refl in
      let at-k : k ≡ length pre' =
        ap (λ (b : List ℕ). length (b ++ jump)) buf2 ∙ simp length-append (omega arith) in
      let (s6, ran6, at6) = set_label-run pre' d 0 k s5 at-k buf5 in
      (
        s6,
        bind-some (instr_label op operands)
              (λ l. body >> (instr_label op' [] >>= λ j. set_label l >> (other >> set_label j))) s
              s1 (length pre) ran1
            ∙ bind-some body
                (λ _. instr_label op' [] >>= λ j. set_label (length pre) >> (other >> set_label j))
                s1 s2 tt ran2
            ∙ bind-some (instr_label op' []) (λ j. set_label (length pre) >> (other >> set_label j))
                s2 s3 k ran3
            ∙ bind-some (set_label (length pre)) (λ _. other >> set_label k) s3 s4 tt ran4
            ∙ bind-some other (λ _. set_label k) s4 s5 tt ran5
            ∙ ran6,
        at6
            ∙ ap (λ (n : ℕ). (pre ++ ((n % 2 ^ 8) ∷ (c ++ jump))) ++ ((length d % 2 ^ 8) ∷ d)) size
            ∙ simp append_assoc refl,
      );
}
