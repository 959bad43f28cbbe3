-- ===== src/Simulation/Runs.antt =====
-- vm/vm.cpp: the steps of a run over code that is known at the current position.
use marius.Base.{
  ℕ, suc, ◌+◌, ◌%◌, ◌^◌, ◌≡◌, refl, ap, sym, subst, ◌∙◌, false, List, ◌∷◌, ◌++◌, length, arith,
  get_or, get_elem?, get_elem?-append, get_or-append, some, append_assoc, length-append,
}
use marius.Base.Int.{ℤ, pos, eq_ℤ}
use marius.Instruction.{Opcode, opcode, to_opcode-opcode, opcode-lt}
use marius.Machine.{Registers, Frame, goes, returns, Call, operand, execute, step, run, write}
use marius.Machine.Interface.{Host, Reply}

module _ {V W : Type 0} (host : Host V W) (call : Call) where
  -- Turns of the loop.
  pub data Runs : Frame V W → Frame V W → Type 0 where
    here : {f : Frame V W} → Runs f f
    next : {f g h : Frame V W} → step host call f ≡ goes g → Runs g h → Runs f h

  pub Runs-then : {f g h : Frame V W} → Runs f g → Runs g h → Runs f h
  Runs-then here r' = r'
  Runs-then (next e r) r' = next e (Runs-then r r')

  -- Turns and a last one that leaves the call are a run that ends.
  pub Runs-run :
      {f g : Frame V W} (r : Reply V)
      → Runs f g
      → step host call g ≡ returns r g
      → (fuel : ℕ) × (run host call fuel f ≡ some (r, g))
  unfolding run
  Runs-run r here e = (1, rw (e, run) refl)
  Runs-run r (next e rs) e' = let (n, h) = Runs-run r rs e' in (suc n, rw (e, run) h)

  pub step-at :
      (op : Opcode) (pre rest : List ℕ) (f : Frame V W)
      → call.info.instructions ≡ pre ++ (opcode op % 2 ^ 8 ∷ rest)
      → f.ip ≡ length pre
      → step host call f ≡ execute host call op (suc f.ip) f
  unfolding step
  step-at op pre rest f e at' =
      let found : get_elem? call.info.instructions f.ip ≡ some (opcode op % 2 ^ 8) =
        ap (λ (c : List ℕ). get_elem? c f.ip) e
        ∙ get_elem?-append pre (opcode op % 2 ^ 8 ∷ rest) f.ip 0 (omega arith) in
      let byte : opcode op % 2 ^ 8 ≡ opcode op = omega (arith, opcode-lt op) in
      rw (found, byte, to_opcode-opcode op, step) refl

  pub operand-at :
      (pre rest : List ℕ) (b ip k : ℕ)
      → call.info.instructions ≡ pre ++ (b ∷ rest)
      → ip ≡ length pre
      → operand host call (suc ip) k ≡ get_or rest k 0
  operand-at pre rest b ip k e at' =
      ap (λ (c : List ℕ). get_or c (suc ip + k) 0) e
      ∙ get_or-append pre (b ∷ rest) (suc ip + k) (suc k) 0 (omega arith)

  -- A run from f to position ip that leaves w in register t and changes nothing else.
  pub record Arrives (t : ℕ) (f : Frame V W) (ip : ℕ) (w : V) : Type 0 where
    pub fp : Registers V
    pub runs : Runs f (record f { ip = ip; fp = fp })
    pub holds : fp (pos t) ≡ w
    pub kept : (k : ℤ) → eq_ℤ (pos t) k ≡ false → fp k ≡ f.fp k

  pub Arrives-then :
      {t : ℕ} {f : Frame V W} {ip ip' : ℕ} {u w : V} (a : Arrives t f ip u)
      → Arrives t (record f { ip = ip; fp = a.fp }) ip' w
      → Arrives t f ip' w
  Arrives-then a b = record {
    fp = b.fp;
    runs = Runs-then a.runs b.runs;
    holds = b.holds;
    kept = λ k e. b.kept k e ∙ a.kept k e;
  }

  -- One turn that writes register t, and one that only moves.
  pub Arrives-put :
      (t ip : ℕ) (f : Frame V W) (w : V)
      → step host call f ≡ goes (record f { ip = ip; fp = write f.fp t w })
      → Arrives t f ip w
  Arrives-put t ip f w e = record {
    fp = write f.fp t w;
    runs = next e here;
    holds = ground arith;
    kept = λ k no. rw no refl;
  }

  pub Arrives-jump :
      (t ip : ℕ) (f : Frame V W) (w : V)
      → step host call f ≡ goes (record f { ip = ip })
      → f.fp (pos t) ≡ w
      → Arrives t f ip w
  Arrives-jump t ip f w e h = record {
    fp = f.fp;
    runs = next e here;
    holds = h;
    kept = λ k no. refl;
  }

  pub Arrives-after :
      (t i ip : ℕ) (f : Frame V W) (w : V)
      → step host call f ≡ goes (record f { ip = i })
      → Arrives t (record f { ip = i }) ip w
      → Arrives t f ip w
  Arrives-after t i ip f w e a = record {
    fp = a.fp;
    runs = next e a.runs;
    holds = a.holds;
    kept = a.kept;
  }

  -- Wherever the bytes d stand in the code, a run over them from u in register t comes to w in it.
  pub record Continues (t : ℕ) (u : V) (d : List ℕ) (w : V) : Type 0 where
    pub run :
        (pre post : List ℕ) (f : Frame V W)
        → call.info.instructions ≡ pre ++ (d ++ post)
        → f.ip ≡ length pre
        → f.fp (pos t) ≡ u
        → Arrives t f (length pre + length d) w

  pub Continues-then :
      {t : ℕ} {u v w : V} {c d : List ℕ}
      → Continues t u c v
      → Continues t v d w
      → Continues t u (c ++ d) w
  Continues-then {t = t} {v = v} {w = w} {c = c} {d = d} a b = record {
    run = λ pre post f e at' h.
        let first =
          a.run pre (d ++ post) f (e ∙ ap (λ (l : List ℕ). pre ++ l) (append_assoc c d post)) at'
            h in
        let second =
          b.run (pre ++ c) post (record f { ip = length pre + length c; fp = first.fp })
            (e ∙ simp append_assoc refl) (sym (length-append pre c)) first.holds in
        let arrived : length (pre ++ c) + length d ≡ length pre + length (c ++ d) =
          simp length-append (omega arith) in
        subst (λ (ip : ℕ). Arrives t f ip w) arrived (Arrives-then first second);
  }
