-- ===== src/Codegen/Layout/Rules.antt =====
-- vm/ast.hpp: what the operations of `ast::State` keep. The code behind a given prefix of the buffer
-- is whole instructions, some of whose operands are labels still to be set.
use marius.Base.{
  if◌then◌else◌, ℕ, suc, ◌+◌, ◌-◌, ◌%◌, ◌^◌, ◌≤◌, ◌≡◌, refl, sym, ap, ◌∙◌, subst, ◌⊎◌, inl, inr,
  Option, none, some, Bool, true, false, ltb, Bool-cases, List, [], ◌∷◌, ◌++◌, append_assoc,
  append-nil, length, set, map, set-append, length-append, arith,
}
use marius.Instruction.{Opcode, opcode, insn_len, opcode-lt}
use marius.Instruction.Stream.{
  Fits, done, more, IsOperand, Fits-append, Fits-set, IsOperand-append, IsOperand-after,
}
use marius.Ast.{Bytes, ArgMap, Meta}
use marius.Codegen.State.{
  Code, Codes, code, end, cons, add_code, State, M, ◌>>=◌, ◌>>◌, pure, need, push, push_all, instr,
  instr_label, label, set_label, set_label_abs, write_at, string, keyword, code_index, mark,
}

-- Every code, and the codes in it, are whole instructions.
abbrev mutual
  pub CodeFits : Code → Type 0
  CodeFits (code info cs) = ((ops : List Opcode) × Fits ops info.instructions) × CodesFit cs

  pub CodesFit : Codes → Type 0
  CodesFit end = Unit
  CodesFit (cons c cs) = CodeFits c × CodesFit cs

-- The holes, as positions in the buffer, are operands of the code behind the first n bytes.
abbrev pub AreHoles : List Opcode → ℕ → List ℕ → Type 0
AreHoles ops n [] = Unit
AreHoles ops n (h ∷ hs) = (n ≤ h) × IsOperand ops (h - n) × AreHoles ops n hs

pub record IsLaidOut (base holes : List ℕ) (s : State) : Type 0 where
  pub ops : List Opcode
  pub code : List ℕ
  pub split : s.buffer ≡ base ++ code
  pub fits : Fits ops code
  pub operands : AreHoles ops (length base) holes
  pub nested : CodesFit s.codes

-- `Stop` says when the program may end: `Unit` for partial correctness, `⊥` for total.
pub data After {A : Type 0} (Stop : Type 0) (P : State → Type 0) : Option (A × State) → Type 0 where
  stops : Stop → After Stop P none
  goes : {a : A} {s : State} → P s → After Stop P (some (a, s))

-- From a buffer with these holes the operation leads to one with these holes, or ends the program.
pub record Keeps {A : Type 0} (Stop : Type 0) (holes : List ℕ) (m : M A) : Type 0 where
  pub run :
      (base : List ℕ) (s : State) → IsLaidOut base holes s → After Stop (IsLaidOut base holes) (m s)

After-bind :
    {A B : Type 0} {Stop : Type 0} {P Q : State → Type 0} {r : Option (A × State)} {f : A → M B}
    → After Stop P r
    → ((a : A) (s : State) → P s → After Stop Q (f a s))
    → After Stop Q (elim r [ none ↦ none | some (a, s') ↦ f a s' ])
After-bind (stops h) k = stops h
After-bind (goes h) k = k _ _ h

module _ {A B : Type 0} {Stop : Type 0} {holes : List ℕ} where
  pub Keeps-bind :
      {m : M A} {f : A → M B}
      → Keeps Stop holes m
      → ((a : A) → Keeps Stop holes (f a))
      → Keeps Stop holes (m >>= f)
  Keeps-bind h k = record {
    run = λ base s v. After-bind (h.run base s v) (λ a s' w. (k a).run base s' w);
  }

pub Keeps-then :
    {B : Type 0} {Stop : Type 0} {holes : List ℕ} {m : M (Unit {0})} {f : M B}
    → Keeps Stop holes m
    → Keeps Stop holes f
    → Keeps Stop holes (m >> f)
Keeps-then h k = record {
  run = λ base s v. After-bind (h.run base s v) (λ a s' w. k.run base s' w);
}

-- Appended instructions leave the holes where they are.
AreHoles-append :
    (ops ops' : List Opcode) (n : ℕ) (holes : List ℕ)
    → AreHoles ops n holes
    → AreHoles (ops ++ ops') n holes
AreHoles-append ops ops' n [] h = tt
AreHoles-append ops ops' n (k ∷ ks) h =
    (h.0, IsOperand-append ops ops' (k - n) h.1, AreHoles-append ops ops' n ks h.2)

abbrev appended : State → List ℕ → State
appended s c = record s { buffer = s.buffer ++ c }

IsLaidOut-append :
    {base holes : List ℕ} {s : State} {ops : List Opcode} {c : List ℕ}
    → IsLaidOut base holes s
    → Fits ops c
    → IsLaidOut base holes (appended s c)
IsLaidOut-append {base} {holes} {s} {ops} {c} v f = record {
  ops = v.ops ++ ops;
  code = v.code ++ c;
  split = rw (v.split) (append_assoc base v.code c);
  fits = Fits-append v.fits f;
  operands = AreHoles-append v.ops ops (length base) holes v.operands;
  nested = v.nested;
}

abbrev byte : ℕ → ℕ
byte b = b % 2 ^ 8

push_all_lem : (bs : List ℕ) (s : State) → push_all bs s ≡ some (tt, appended s (map byte bs))
unfolding push_all
push_all_lem [] s = rw (append-nil s.buffer)
push_all_lem (b ∷ bs) s =
    push_all_lem bs (appended s (byte b ∷ []))
    ∙ ap (λ (c : List ℕ). some (tt, record s { buffer = c }))
        (append_assoc s.buffer (byte b ∷ []) (map byte bs))

byte-opcode : (op : Opcode) → byte (opcode op) ≡ opcode op
byte-opcode op = omega (arith, opcode-lt op)

instr_lem :
    (op : Opcode) (xs : List ℕ) (s : State)
    → instr op xs s ≡ some (tt, appended s (opcode op ∷ map byte xs))
unfolding instr
instr_lem op xs s = push_all_lem (opcode op ∷ xs) s ∙ (rw byte-opcode)

length-map {ℓ κ} :
    {A : Type ℓ} {B : Type κ} (f : A → B) (xs : List A) → length (map f xs) ≡ length xs
length-map f [] = refl
length-map f (x ∷ xs) = ap suc (length-map f xs)

Fits-one :
    (op : Opcode) (xs : List ℕ) → length xs + 1 ≡ insn_len op → Fits (op ∷ []) (opcode op ∷ xs)
Fits-one op xs n = more xs [] n done (rw append-nil)

-- An instruction with as many operands as its length says.
pub Keeps-instr :
    {Stop : Type 0} {holes : List ℕ} (op : Opcode) (xs : List ℕ)
    → length xs + 1 ≡ insn_len op
    → Keeps Stop holes (instr op xs)
Keeps-instr op xs n = record {
  run = λ base s v. rw (instr_lem op xs s) (
      goes (
        IsLaidOut-append v
          (Fits-one op (map byte xs) (ap (λ (k : ℕ). k + 1) (length-map byte xs) ∙ n))));
}

pub Keeps-pure : {A : Type 0} {Stop : Type 0} {holes : List ℕ} (a : A) → Keeps Stop holes (pure a)
Keeps-pure a = record { run = λ base s v. goes v }

-- What the program needs is there, or it may stop; what follows may use what it is.
pub Keeps-need :
    {A B : Type 0} {Stop : Type 0} {holes : List ℕ} (o : Option A) {k : A → M B}
    → (o ≡ none → Stop)
    → ((a : A) → o ≡ some a → Keeps Stop holes (k a))
    → Keeps Stop holes (need o >>= k)
unfolding need
Keeps-need none h g = record { run = λ base s v. stops (h refl) }
Keeps-need (some a) h g = record { run = λ base s v. (g a refl).run base s v }

-- What leaves the buffer and the codes alone keeps the layout.
IsLaidOut-tables :
    {base holes : List ℕ} {s t : State}
    → IsLaidOut base holes s
    → t.buffer ≡ s.buffer
    → t.codes ≡ s.codes
    → IsLaidOut base holes t
IsLaidOut-tables v b c = record {
  ops = v.ops;
  code = v.code;
  split = b ∙ v.split;
  fits = v.fits;
  operands = v.operands;
  nested = subst CodesFit (sym c) v.nested;
}

pub Keeps-string : {Stop : Type 0} {holes : List ℕ} (str : Bytes) → Keeps Stop holes (string str)
unfolding string
Keeps-string str = record { run = λ base s v. goes (IsLaidOut-tables v refl refl) }

pub Keeps-keyword : {Stop : Type 0} {holes : List ℕ} (kw : ArgMap) → Keeps Stop holes (keyword kw)
unfolding keyword
Keeps-keyword kw = record { run = λ base s v. goes (IsLaidOut-tables v refl refl) }

pub Keeps-label : {Stop : Type 0} {holes : List ℕ} → Keeps Stop holes label
unfolding label
Keeps-label = record { run = λ base s v. goes v }

pub Keeps-mark : {Stop : Type 0} {holes : List ℕ} (m : Meta) → Keeps Stop holes (mark m)
unfolding mark
Keeps-mark m = elim (Bool-cases (ltb m.line 1)) [
  | inl e ↦ record { run = λ base s v. rw e (goes v) }
  | inr e ↦ record { run = λ base s v. rw e (goes (IsLaidOut-tables v refl refl)) }
]

CodesFit-add : (cs : Codes) (c : Code) → CodesFit cs → CodeFits c → CodesFit (add_code cs c)
unfolding add_code
CodesFit-add end c h k = (k, tt)
CodesFit-add (cons d ds) c h k = (h.0, CodesFit-add ds c h.1 k)

pub Keeps-code_index :
    {Stop : Type 0} {holes : List ℕ} (c : Code) → CodeFits c → Keeps Stop holes (code_index c)
unfolding code_index
Keeps-code_index c h = record {
  run = λ base s v. goes (record {
    ops = v.ops;
    code = v.code;
    split = v.split;
    fits = v.fits;
    operands = v.operands;
    nested = CodesFit-add s.codes c v.nested h;
  });
}

-- Labels.

abbrev pub In : ℕ → List ℕ → Type 0
In l [] = ⊥
In l (h ∷ hs) = (l ≡ h) ⊎ In l hs

AreHoles-In :
    (ops : List Opcode) (n l : ℕ) (holes : List ℕ)
    → AreHoles ops n holes
    → In l holes
    → (n ≤ l) × IsOperand ops (l - n)
AreHoles-In ops n l [] h i = absurd i
AreHoles-In ops n l (k ∷ ks) h (inl e) = rw e (h.0, h.1)
AreHoles-In ops n l (k ∷ ks) h (inr i) = AreHoles-In ops n l ks h.2 i

IsLaidOut-set :
    {base holes : List ℕ} {s : State} (l x : ℕ)
    → IsLaidOut base holes s
    → In l holes
    → IsLaidOut base holes (write_at l x s)
IsLaidOut-set {base} {holes} {s} l x v i =
    let hole = AreHoles-In v.ops (length base) l holes v.operands i in
    record {
      ops = v.ops;
      code = set v.code (l - length base) x;
      split = rw (v.split) (set-append base v.code l (l - length base) x (omega (arith, hole.0)));
      fits = Fits-set (l - length base) x v.fits hole.1;
      operands = v.operands;
      nested = v.nested;
    }

pub Keeps-set_label :
    {Stop : Type 0} {holes : List ℕ} (l : ℕ) → In l holes → Keeps Stop holes (set_label l)
unfolding set_label
Keeps-set_label l i = record { run = λ base s v. goes (IsLaidOut-set l _ v i) }

pub Keeps-set_label_abs :
    {Stop : Type 0} {holes : List ℕ} (l : ℕ) → In l holes → Keeps Stop holes (set_label_abs l)
unfolding set_label_abs
Keeps-set_label_abs l i = record { run = λ base s v. goes (IsLaidOut-set l _ v i) }

set-end : (xs : List ℕ) (x : ℕ) → set xs (length xs) x ≡ xs
set-end [] x = refl
set-end (y ∷ xs) x = ap (◌∷◌ y) (set-end xs x)

-- A label at the end of the buffer is written behind it.
pub Keeps-label_here : {Stop : Type 0} {holes : List ℕ} → Keeps Stop holes (label >>= set_label)
unfolding label set_label
Keeps-label_here = record {
  run = λ base s v. goes (record {
    ops = v.ops;
    code = v.code;
    split = set-end s.buffer ((length s.buffer + 2 ^ 8 - length s.buffer - 1) % 2 ^ 8) ∙ v.split;
    fits = v.fits;
    operands = v.operands;
    nested = v.nested;
  });
}

instr_label_lem :
    (op : Opcode) (xs : List ℕ) (s : State)
    → instr_label op xs s
      ≡ some (
        length (s.buffer ++ opcode op ∷ map byte xs),
        appended s (opcode op ∷ (map byte xs ++ 0 ∷ [])),
      )
unfolding instr_label label push
instr_label_lem op xs s =
    rw (instr_lem op xs s, ◌>>=◌, ◌>>◌, instr_label)
      (ap
        (λ (c : List ℕ).
          some (length (s.buffer ++ opcode op ∷ map byte xs), record s { buffer = c }))
        (append_assoc s.buffer (opcode op ∷ map byte xs) (0 ∷ [])))

After-weaken :
    {A : Type 0} {Stop : Type 0} {P Q : State → Type 0} {r : Option (A × State)}
    → After Stop P r
    → ((s : State) → P s → Q s)
    → After Stop Q r
After-weaken (stops h) w = stops h
After-weaken (goes h) w = goes (w _ h)

forget_hole :
    {base holes : List ℕ} {l : ℕ} (s : State)
    → IsLaidOut base (l ∷ holes) s
    → IsLaidOut base holes s
forget_hole s v = record {
  ops = v.ops;
  code = v.code;
  split = v.split;
  fits = v.fits;
  operands = v.operands.2;
  nested = v.nested;
}

IsLaidOut-label :
    {base holes : List ℕ} {s : State} (op : Opcode) (xs : List ℕ)
    → length xs + 2 ≡ insn_len op
    → IsLaidOut base holes s
    → IsLaidOut base
        (length (s.buffer ++ opcode op ∷ map byte xs) ∷ holes)
        (appended s (opcode op ∷ (map byte xs ++ 0 ∷ [])))
unfolding IsLaidOut-append
IsLaidOut-label {base} {holes} {s} op xs n v =
    let fits : Fits (op ∷ []) (opcode op ∷ (map byte xs ++ 0 ∷ [])) =
      Fits-one op (map byte xs ++ 0 ∷ [])
        (omega (arith, length-append (map byte xs) (0 ∷ []), length-map byte xs)) in
    let w = IsLaidOut-append v fits in
    let at = length (s.buffer ++ opcode op ∷ map byte xs) in
    let place : at ≡ length base + length v.code + (1 + length xs) = omega (
      arith,
      length-append s.buffer (opcode op ∷ map byte xs),
      length-map byte xs,
      ap length v.split,
      length-append base v.code,
    ) in
    record {
      ops = w.ops;
      code = w.code;
      split = w.split;
      fits = w.fits;
      operands = (
        omega arith,
        IsOperand-after (op ∷ []) (1 + length xs) (at - length base) v.fits (omega arith)
            (inl (omega arith)),
        w.operands,
      );
      nested = w.nested;
    }

-- The operations behind an instruction's label keep the layout with that label as one more hole.
pub Keeps-instr_label :
    {B : Type 0} {Stop : Type 0} {holes : List ℕ} (op : Opcode) (xs : List ℕ) {k : ℕ → M B}
    → length xs + 2 ≡ insn_len op
    → ((l : ℕ) → Keeps Stop (l ∷ holes) (k l))
    → Keeps Stop holes (instr_label op xs >>= k)
Keeps-instr_label op xs n h = record {
  run = λ base s v.
      rw (instr_label_lem op xs s, ◌>>=◌)
        (After-weaken ((h _).run base _ (IsLaidOut-label op xs n v)) forget_hole);
}

pub Keeps-if :
    {A : Type 0} {Stop : Type 0} {holes : List ℕ} (b : Bool) {x y : M A}
    → Keeps Stop holes x
    → Keeps Stop holes y
    → Keeps Stop holes (if b then x else y)
Keeps-if true h k = h
Keeps-if false h k = k

-- A branch may use what its test says.
pub Keeps-branch :
    {A : Type 0} {Stop : Type 0} {holes : List ℕ} (b : Bool) {x y : M A}
    → (b ≡ true → Keeps Stop holes x)
    → (b ≡ false → Keeps Stop holes y)
    → Keeps Stop holes (if b then x else y)
Keeps-branch true h k = h refl
Keeps-branch false h k = k refl

-- The rules by which `search` follows a `drive`.
pub ruleset keeps = (
  Keeps-bind, Keeps-then, Keeps-pure, Keeps-string, Keeps-keyword, Keeps-label, Keeps-mark,
  Keeps-instr, Keeps-if,
)

pub ruleset keeps_labels =
    (keeps, Keeps-instr_label, Keeps-set_label, Keeps-set_label_abs, inl, inr)
