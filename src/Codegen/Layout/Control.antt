-- ===== src/Codegen/Layout/Control.antt =====
-- vm/ast.cpp: the nodes that jump keep the layout, also while their labels are open.
use marius.Base.{◌≡◌, refl, Bool, true, false, ℕ, List, Option, none, some}
use marius.Ast.{Bytes, Meta}
use marius.Codegen.State.{Analysis}
use marius.Instruction.{insn_len}
use marius.Codegen.Values.{Drive}
use marius.Codegen.Control
use marius.Codegen.Layout.Rules.{Keeps, goes, keeps, keeps_labels}
use marius.Codegen.Layout.Values.{DriveKeeps}
use marius.Codegen.Layout.Locals.{NodeFits, local_of-Keeps, set_local-Keeps}

abbrev pub is_some : Option Bytes → Bool
is_some none = false
is_some (some id) = true

abbrev pub OptKeeps : Type 0 → Option Drive → Type 0
OptKeeps Stop none = Unit
OptKeeps Stop (some d) = DriveKeeps Stop d

module _ {Stop : Type 0} (a b : Drive) (ha : DriveKeeps Stop a) (hb : DriveKeeps Stop b) where
  pub drive_seq-Keeps : DriveKeeps Stop (Control.drive_seq a b)
  unfolding Control.drive_seq
  drive_seq-Keeps t holes = search (keeps, ha, hb)

  module _ (m : Meta) where
    pub drive_while-Keeps : DriveKeeps Stop (Control.drive_while m a b)
    unfolding Control.drive_while insn_len
    drive_while-Keeps t holes = search (keeps_labels, ha, hb) depth 12

    pub drive_unless-Keeps : DriveKeeps Stop (Control.drive_unless m a b)
    unfolding Control.drive_unless insn_len
    drive_unless-Keeps t holes = search (keeps_labels, ha, hb) depth 12

    pub drive_and-Keeps : DriveKeeps Stop (Control.drive_and m a b)
    unfolding Control.drive_and insn_len
    drive_and-Keeps t holes = search (keeps_labels, ha, hb) depth 12

    pub drive_if_cond-Keeps :
        (e : Option Drive) → OptKeeps Stop e → DriveKeeps Stop (Control.drive_if_cond m a b e)
    unfolding Control.drive_if_cond insn_len
    drive_if_cond-Keeps none he t holes = search (keeps_labels, ha, hb) depth 12
    drive_if_cond-Keeps (some e) he t holes = search (keeps_labels, ha, hb, he) depth 16

lambda_p-Keeps : {Stop : Type 0} (holes : List ℕ) → Keeps Stop holes Control.lambda_p
unfolding Control.lambda_p
lambda_p-Keeps holes = record { run = λ base s v. goes v }

pub drive_return-Keeps :
    {Stop : Type 0} (m : Meta) (val : Drive)
    → DriveKeeps Stop val
    → DriveKeeps Stop (Control.drive_return m val)
unfolding Control.drive_return insn_len
drive_return-Keeps m val hv t holes = search (keeps, hv, lambda_p-Keeps)

module _ {Stop : Type 0} (an : Analysis) (m : Meta) (handler : Drive)
    (hh : DriveKeeps Stop handler) where
  drive_handler-Keeps :
      (id : Option Bytes) (type : Option Drive)
      → (is_some id ≡ true → NodeFits Stop an m.id)
      → OptKeeps Stop type
      → DriveKeeps Stop (Control.drive_handler an m id type handler)
  unfolding insn_len
  drive_handler-Keeps (some id) (some type) f ht t holes =
      search (keeps_labels, f refl, hh, ht, local_of-Keeps, set_local-Keeps) depth 24 fits 5000
  drive_handler-Keeps none type f ht t holes = hh t holes
  drive_handler-Keeps (some id) none f ht t holes = hh t holes

  pub drive_try-Keeps :
      (body : Drive) (id : Option Bytes) (type : Option Drive)
      → DriveKeeps Stop body
      → (is_some id ≡ true → NodeFits Stop an m.id)
      → OptKeeps Stop type
      → DriveKeeps Stop (Control.drive_try an m body id type handler)
  unfolding Control.drive_try insn_len
  drive_try-Keeps body id type hb f ht t holes =
      search (keeps_labels, hb, drive_handler-Keeps id type f ht) depth 16
