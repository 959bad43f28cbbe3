-- ===== src/Simulation/Correct.antt =====
-- vm/ast.cpp, vm/vm.cpp: the machine runs the bytes of an expression to its value.
use marius.Base.{
  ◌*◌, ◌/◌, ◌-◌, ltb, ltb→lt, lt→ltb, ℕ, suc, ◌+◌, ◌%◌, ◌^◌, ◌<◌, ◌≡◌, refl, ap, sym, subst, ◌∙◌,
  Bool, true, false, List, [], ◌∷◌, ◌++◌, length, arith, append_assoc, length-append, if◌then◌else◌,
  Bool-cases, inl, inr,
}
use marius.Base.Int.{ℤ, pos, negsuc}
use marius.Ast.{Meta, Node}
use marius.Instruction.{Opcode, opcode}
use marius.Machine.{put, Frame, goes, Call, operand, execute, step, from_le_bytes}
use marius.Machine.Interface.{Host}
use marius.Simulation.Fragment.{bytes, encode, guard}
use marius.Simulation.Runs.{
  Arrives-after, step-at, operand-at, Arrives, Arrives-put, Arrives-jump, Continues, Continues-then,
}
use marius.Codegen.Values.{le_bytes}

module _ {V W : Type 0} (host : Host V W) (call : Call) (t : ℕ) (small : t < 2 ^ 8) where
  register : t % 2 ^ 8 ≡ t
  register = omega arith

  -- An instruction that writes its first operand's register and goes on behind its last operand.
  put-Arrives :
      (op : Opcode) (xs : List ℕ) (w : V) (pre post : List ℕ) (f : Frame V W)
      → call.info.instructions ≡ pre ++ (opcode op % 2 ^ 8 ∷ t % 2 ^ 8 ∷ (xs ++ post))
      → f.ip ≡ length pre
      → execute host call op (suc f.ip) f
        ≡ put host call f (suc f.ip + (length xs + 1)) (operand host call (suc f.ip) 0) w
      → Arrives host call t f (length pre + suc (suc (length xs))) w
  put-Arrives op xs w pre post f e at' writes =
      let rest : List ℕ = t % 2 ^ 8 ∷ (xs ++ post) in
      let o = operand-at host call pre rest (opcode op % 2 ^ 8) f.ip 0 e at' ∙ register in
      let ip' : suc f.ip + (length xs + 1) ≡ length pre + suc (suc (length xs)) = omega arith in
      Arrives-put host call t (length pre + suc (suc (length xs))) f w (
        step-at host call op pre rest f e at'
        ∙ writes
        ∙ ap (λ (r : ℕ). put host call f (suc f.ip + (length xs + 1)) r w) o
        ∙ ap (λ (i : ℕ). put host call f i t w) ip')

  pub nil-Continues : (u : V) → Continues host call t u (encode Opcode.movn (t ∷ [])) host.nil
  unfolding execute
  nil-Continues u = record {
    run = λ pre post f e at' h. put-Arrives Opcode.movn [] host.nil pre post f e at' refl;
  }

  pub true-Continues : (u : V) → Continues host call t u (encode Opcode.movt (t ∷ [])) host.true_
  unfolding execute
  true-Continues u = record {
    run = λ pre post f e at' h. put-Arrives Opcode.movt [] host.true_ pre post f e at' refl;
  }

  pub false-Continues : (u : V) → Continues host call t u (encode Opcode.movf (t ∷ [])) host.false_
  unfolding execute
  false-Continues u = record {
    run = λ pre post f e at' h. put-Arrives Opcode.movf [] host.false_ pre post f e at' refl;
  }

  pub not-Continues :
      (u : V)
      → Continues host call t u
          (encode Opcode.not (t ∷ t ∷ []))
          (if host.true_condition u then host.false_ else host.true_)
  unfolding execute
  not-Continues u = record {
    run = λ pre post f e at' h.
        let rest : List ℕ = t % 2 ^ 8 ∷ t % 2 ^ 8 ∷ post in
        let o = operand-at host call pre rest (opcode Opcode.not % 2 ^ 8) f.ip 1 e at' ∙ register in
        let read : f.fp (pos (operand host call (suc f.ip) 1)) ≡ u =
          ap (λ (r : ℕ). f.fp (pos r)) o ∙ h in
        put-Arrives Opcode.not (t % 2 ^ 8 ∷ [])
          (if host.true_condition u then host.false_ else host.true_) pre post f e at'
          (ap
            (λ (v : V).
              put host call f (suc f.ip + 2) (operand host call (suc f.ip) 0)
                (if host.true_condition v then host.false_ else host.true_))
            read);
  }

  choice-Continues :
      (b : Bool) (u v : V) (c d : List ℕ)
      → (b ≡ true → Continues host call t u c v)
      → (b ≡ false → Continues host call t u d v)
      → Continues host call t u (if b then c else d) v
  choice-Continues true u v c d then' else' = then' refl
  choice-Continues false u v c d then' else' = else' refl

  from_le_bytes-le_bytes :
      (n : ℕ)
      → n < 2 ^ 31
      → from_le_bytes
          (n % 2 ^ 8 % 2 ^ 8)
          ((n / 2 ^ 8) % 2 ^ 8 % 2 ^ 8)
          ((n / 2 ^ 16) % 2 ^ 8 % 2 ^ 8)
          ((n / 2 ^ 24) % 2 ^ 8 % 2 ^ 8)
        ≡ pos n
  from_le_bytes-le_bytes n h =
      let total : n % 2 ^ 8 % 2 ^ 8
            + (n / 2 ^ 8) % 2 ^ 8 % 2 ^ 8 * 2 ^ 8
            + (n / 2 ^ 16) % 2 ^ 8 % 2 ^ 8 * 2 ^ 16
            + (n / 2 ^ 24) % 2 ^ 8 % 2 ^ 8 * 2 ^ 24
          ≡ n =
        omega arith in
      ap (λ (k : ℕ). if ltb k (2 ^ 31) then pos k else negsuc (2 ^ 32 - 1 - k)) total
      ∙ rw (lt→ltb n (2 ^ 31) h) refl

  -- A number below 128 is a byte, a larger one four.
  pub number-Continues :
      (m : Meta) (u : V) (n : ℕ)
      → n < 2 ^ 31
      → Continues host call t u (bytes (Node.number m (pos n)) t) (host.integer (pos n))
  unfolding bytes execute
  number-Continues m u n h =
      choice-Continues (ltb n 128) u (host.integer (pos n)) (encode Opcode.movi8 (t ∷ n ∷ []))
        (encode Opcode.movi32 (t ∷ le_bytes n))
        (λ lt. record {
          run = λ pre post f e at' h'.
              let rest : List ℕ = t % 2 ^ 8 ∷ n % 2 ^ 8 ∷ post in
              let byte : n % 2 ^ 8 ≡ n = let small' = ltb→lt n 128 lt in omega arith in
              let o =
                operand-at host call pre rest (opcode Opcode.movi8 % 2 ^ 8) f.ip 1 e at' ∙ byte in
              put-Arrives Opcode.movi8 (n % 2 ^ 8 ∷ []) (host.integer (pos n)) pre post f e at' (
                ap
                  (λ (k : ℕ).
                    put host call f (suc f.ip + 2) (operand host call (suc f.ip) 0)
                      (host.integer (pos k)))
                  o);
        })
        (λ ge. record {
          run = λ pre post f e at' h'.
              let b0 : ℕ = n % 2 ^ 8 % 2 ^ 8 in
              let b1 : ℕ = (n / 2 ^ 8) % 2 ^ 8 % 2 ^ 8 in
              let b2 : ℕ = (n / 2 ^ 16) % 2 ^ 8 % 2 ^ 8 in
              let b3 : ℕ = (n / 2 ^ 24) % 2 ^ 8 % 2 ^ 8 in
              let rest : List ℕ = t % 2 ^ 8 ∷ b0 ∷ b1 ∷ b2 ∷ b3 ∷ post in
              let o = λ (k : ℕ).
                operand-at host call pre rest (opcode Opcode.movi32 % 2 ^ 8) f.ip k e at' in
              let read : from_le_bytes (operand host call (suc f.ip) 1)
                    (operand host call (suc f.ip) 2) (operand host call (suc f.ip) 3)
                    (operand host call (suc f.ip) 4)
                  ≡ pos n =
                rw (o 1, o 2, o 3, o 4) (from_le_bytes-le_bytes n h) in
              put-Arrives Opcode.movi32 (b0 ∷ b1 ∷ b2 ∷ b3 ∷ []) (host.integer (pos n)) pre post f e
                at'
                (ap
                  (λ (k : ℤ).
                    put host call f (suc f.ip + 5) (operand host call (suc f.ip) 0)
                      (host.integer k))
                  read);
        })

  -- From a jump of three bytes at f to the code d behind it, and over that code.
  into-Arrives :
      (u v : V) (d head pre post : List ℕ) (ip : ℕ) (f : Frame V W)
      → ip ≡ length pre + (length head + length d)
      → Continues host call t u d v
      → call.info.instructions ≡ pre ++ (head ++ (d ++ post))
      → step host call f ≡ goes (record f { ip = length pre + length head })
      → f.fp (pos t) ≡ u
      → Arrives host call t f ip v
  into-Arrives u v d head pre post ip f end' c e s h =
      let start : Frame V W = record f { ip = length pre + length head } in
      let body =
        c.run (pre ++ head) post start (e ∙ sym (append_assoc pre head (d ++ post)))
          (sym (length-append pre head)) h in
      let arrived : length (pre ++ head) + length d ≡ ip = simp length-append (omega arith) in
      Arrives-after host call t (length pre + length head) ip f v s
        (subst (λ (i : ℕ). Arrives host call t start i v) arrived body)

  -- A JMPIF over the code d.
  pub guard_if-Continues :
      (u v : V) (d : List ℕ)
      → length d < 2 ^ 8
      → Continues host call t u d v
      → Continues host call t u
          (guard Opcode.jmpif (t ∷ []) (length d) d)
          (if host.true_condition u then v else u)
  unfolding execute
  guard_if-Continues u v d lt c = record {
    run = λ pre post f e at' h.
        let rest : List ℕ = t % 2 ^ 8 ∷ length d % 2 ^ 8 ∷ (d ++ post) in
        let head : List ℕ = opcode Opcode.jmpif % 2 ^ 8 ∷ t % 2 ^ 8 ∷ length d % 2 ^ 8 ∷ [] in
        let o0 =
          operand-at host call pre rest (opcode Opcode.jmpif % 2 ^ 8) f.ip 0 e at' ∙ register in
        let distance : length d % 2 ^ 8 ≡ length d = omega arith in
        let o1 =
          operand-at host call pre rest (opcode Opcode.jmpif % 2 ^ 8) f.ip 1 e at' ∙ distance in
        let read : f.fp (pos (operand host call (suc f.ip) 0)) ≡ u =
          ap (λ (r : ℕ). f.fp (pos r)) o0 ∙ h in
        let s =
          step-at host call Opcode.jmpif pre rest f e at'
          ∙ ap
              (λ (x : V). goes (record f {
                ip =
                    if host.true_condition x
                    then suc f.ip + 2
                    else suc f.ip + (operand host call (suc f.ip) 1 + 2);
              }))
              read in
        elim (Bool-cases (host.true_condition u)) [
          | inl so ↦
              let ip' : suc f.ip + 2 ≡ length pre + 3 = omega arith in
              rw so (
                into-Arrives u v d head pre post (length pre + suc (suc (suc (length d)))) f
                  (omega arith) c e (s ∙ rw so (ap (λ (i : ℕ). goes (record f { ip = i })) ip')) h)
          | inr else' ↦
              let ip' : suc f.ip + (operand host call (suc f.ip) 1 + 2)
                  ≡ length pre + suc (suc (suc (length d))) =
                omega arith in
              rw else' (
                Arrives-jump host call t (length pre + suc (suc (suc (length d)))) f u
                  (s ∙ rw else' (ap (λ (i : ℕ). goes (record f { ip = i })) ip')) h)
        ];
  }

  -- A JMPIT over it.
  pub guard_unless-Continues :
      (u v : V) (d : List ℕ)
      → length d < 2 ^ 8
      → Continues host call t u d v
      → Continues host call t u
          (guard Opcode.jmpit (t ∷ []) (length d) d)
          (if host.true_condition u then u else v)
  unfolding execute
  guard_unless-Continues u v d lt c = record {
    run = λ pre post f e at' h.
        let rest : List ℕ = t % 2 ^ 8 ∷ length d % 2 ^ 8 ∷ (d ++ post) in
        let head : List ℕ = opcode Opcode.jmpit % 2 ^ 8 ∷ t % 2 ^ 8 ∷ length d % 2 ^ 8 ∷ [] in
        let o0 =
          operand-at host call pre rest (opcode Opcode.jmpit % 2 ^ 8) f.ip 0 e at' ∙ register in
        let distance : length d % 2 ^ 8 ≡ length d = omega arith in
        let o1 =
          operand-at host call pre rest (opcode Opcode.jmpit % 2 ^ 8) f.ip 1 e at' ∙ distance in
        let read : f.fp (pos (operand host call (suc f.ip) 0)) ≡ u =
          ap (λ (r : ℕ). f.fp (pos r)) o0 ∙ h in
        let s =
          step-at host call Opcode.jmpit pre rest f e at'
          ∙ ap
              (λ (x : V). goes (record f {
                ip =
                    if host.true_condition x
                    then suc f.ip + (operand host call (suc f.ip) 1 + 2)
                    else suc f.ip + 2;
              }))
              read in
        elim (Bool-cases (host.true_condition u)) [
          | inl so ↦
              let ip' : suc f.ip + (operand host call (suc f.ip) 1 + 2)
                  ≡ length pre + suc (suc (suc (length d))) =
                omega arith in
              rw so (
                Arrives-jump host call t (length pre + suc (suc (suc (length d)))) f u
                  (s ∙ rw so (ap (λ (i : ℕ). goes (record f { ip = i })) ip')) h)
          | inr else' ↦
              let ip' : suc f.ip + 2 ≡ length pre + 3 = omega arith in
              rw else' (
                into-Arrives u v d head pre post (length pre + suc (suc (suc (length d)))) f
                  (omega arith) c e (s ∙ rw else' (ap (λ (i : ℕ). goes (record f { ip = i })) ip'))
                  h)
        ];
  }

  -- A JMPF over it.
  pub skip-Continues :
      (v : V) (d : List ℕ)
      → length d < 2 ^ 8
      → Continues host call t v (guard Opcode.jmpf [] (length d) d) v
  unfolding execute
  skip-Continues v d lt = record {
    run = λ pre post f e at' h.
        let rest : List ℕ = length d % 2 ^ 8 ∷ (d ++ post) in
        let distance : length d % 2 ^ 8 ≡ length d = omega arith in
        let o =
          operand-at host call pre rest (opcode Opcode.jmpf % 2 ^ 8) f.ip 0 e at' ∙ distance in
        let ip' : suc f.ip + (operand host call (suc f.ip) 0 + 1)
            ≡ length pre + suc (suc (length d)) =
          omega arith in
        Arrives-jump host call t (length pre + suc (suc (length d))) f v
          (step-at host call Opcode.jmpf pre rest f e at'
            ∙ ap (λ (i : ℕ). goes (record f { ip = i })) ip')
          h;
  }

  -- A JMPIF to the second arm.
  pub arms-Continues :
      (u v w : V) (c d : List ℕ)
      → length c + 2 < 2 ^ 8
      → length d < 2 ^ 8
      → Continues host call t u c v
      → Continues host call t u d w
      → Continues host call t u
          (guard Opcode.jmpif (t ∷ []) (length c + 2) (c ++ guard Opcode.jmpf [] (length d) d))
          (if host.true_condition u then v else w)
  unfolding execute
  arms-Continues u v w c d lt lt' first second = record {
    run = λ pre post f e at' h.
        let code : List ℕ = c ++ guard Opcode.jmpf [] (length d) d in
        let rest : List ℕ = t % 2 ^ 8 ∷ (length c + 2) % 2 ^ 8 ∷ (code ++ post) in
        let head : List ℕ = opcode Opcode.jmpif % 2 ^ 8 ∷ t % 2 ^ 8 ∷ (length c + 2) % 2 ^ 8 ∷ [] in
        let between : List ℕ = c ++ (opcode Opcode.jmpf % 2 ^ 8 ∷ length d % 2 ^ 8 ∷ []) in
        let o0 =
          operand-at host call pre rest (opcode Opcode.jmpif % 2 ^ 8) f.ip 0 e at' ∙ register in
        let distance : (length c + 2) % 2 ^ 8 ≡ length c + 2 = omega arith in
        let o1 =
          operand-at host call pre rest (opcode Opcode.jmpif % 2 ^ 8) f.ip 1 e at' ∙ distance in
        let read : f.fp (pos (operand host call (suc f.ip) 0)) ≡ u =
          ap (λ (r : ℕ). f.fp (pos r)) o0 ∙ h in
        let s =
          step-at host call Opcode.jmpif pre rest f e at'
          ∙ ap
              (λ (x : V). goes (record f {
                ip =
                    if host.true_condition x
                    then suc f.ip + 2
                    else suc f.ip + (operand host call (suc f.ip) 1 + 2);
              }))
              read in
        elim (Bool-cases (host.true_condition u)) [
          | inl so ↦
              let ip' : suc f.ip + 2 ≡ length pre + 3 = omega arith in
              rw so (
                into-Arrives u v code head pre post (length pre + suc (suc (suc (length code)))) f
                  (omega arith) (Continues-then host call first (skip-Continues v d lt')) e
                  (s ∙ rw so (ap (λ (i : ℕ). goes (record f { ip = i })) ip')) h)
          | inr else' ↦
              let ip' : suc f.ip + (operand host call (suc f.ip) 1 + 2)
                  ≡ length pre + length (head ++ between) =
                simp length-append (omega arith) in
              let e' : call.info.instructions ≡ pre ++ ((head ++ between) ++ (d ++ post)) =
                e ∙ simp append_assoc refl in
              rw else' (
                into-Arrives u w d (head ++ between) pre post
                  (length pre + suc (suc (suc (length code)))) f (simp length-append (omega arith))
                  second e' (s ∙ rw else' (ap (λ (i : ℕ). goes (record f { ip = i })) ip')) h)
        ];
  }
