-- ===== src/Codegen/Layout/Values.antt =====
-- vm/ast.cpp: literals, and the nodes that need no local, keep the layout.
use marius.Base.{ℕ, inl, inr, Bool-cases, List, ◌&&◌}
use marius.Base.Int.{ℤ, pos, negsuc, ltb_ℤ}
use marius.Ast.{Bytes, Meta}
use marius.Instruction.{insn_len}
use marius.Codegen.Values
use marius.Codegen.Values.{Drive}
use marius.Codegen.Layout.Rules.{Keeps, keeps}

abbrev pub DriveKeeps : Type 0 → Drive → Type 0
DriveKeeps Stop d = (t : ℕ) (holes : List ℕ) → Keeps Stop holes (d t)

module _ {Stop : Type 0} (m : Meta) where
  pub drive_number-Keeps : (val : ℤ) → DriveKeeps Stop (Values.drive_number m val)
  unfolding Values.drive_number insn_len
  drive_number-Keeps val t holes =
      elim (Bool-cases (ltb_ℤ val (pos 128) && ltb_ℤ (negsuc 126) val)) [
        | inl e ↦ rw e (search keeps)
        | inr e ↦ rw e (search keeps)
      ]

  pub drive_nil-Keeps : DriveKeeps Stop (Values.drive_nil m)
  unfolding Values.drive_nil insn_len
  drive_nil-Keeps t holes = search keeps

  pub drive_true-Keeps : DriveKeeps Stop (Values.drive_true m)
  unfolding Values.drive_true insn_len
  drive_true-Keeps t holes = search keeps

  pub drive_false-Keeps : DriveKeeps Stop (Values.drive_false m)
  unfolding Values.drive_false insn_len
  drive_false-Keeps t holes = search keeps

  module _ (name : Bytes) where
    pub drive_literal_string-Keeps : DriveKeeps Stop (Values.drive_literal_string m name)
    unfolding Values.drive_literal_string insn_len
    drive_literal_string-Keeps t holes = search keeps

    pub drive_ivar_read-Keeps : DriveKeeps Stop (Values.drive_ivar_read m name)
    unfolding Values.drive_ivar_read insn_len
    drive_ivar_read-Keeps t holes = search keeps

    module _ (value : Drive) (v : DriveKeeps Stop value) where
      pub drive_ivar_assign-Keeps : DriveKeeps Stop (Values.drive_ivar_assign m name value)
      unfolding Values.drive_ivar_assign insn_len
      drive_ivar_assign-Keeps t holes = search (keeps, v)

      pub drive_ivar_assign_op-Keeps :
          (op : Bytes) → DriveKeeps Stop (Values.drive_ivar_assign_op m name op value)
      unfolding Values.drive_ivar_assign_op insn_len
      drive_ivar_assign_op-Keeps op t holes = search (keeps, v) depth 12

      pub drive_load_attr-Keeps : DriveKeeps Stop (Values.drive_load_attr m value name)
      unfolding Values.drive_load_attr insn_len
      drive_load_attr-Keeps t holes = search (keeps, v)

  module _ (value : Drive) (v : DriveKeeps Stop value) where
    pub drive_raise-Keeps : DriveKeeps Stop (Values.drive_raise m value)
    unfolding Values.drive_raise insn_len
    drive_raise-Keeps t holes = search (keeps, v)

    pub drive_not-Keeps : DriveKeeps Stop (Values.drive_not m value)
    unfolding Values.drive_not insn_len
    drive_not-Keeps t holes = search (keeps, v)
