-- ===== src/Table/Iteration.antt =====
-- vm/method_table.hpp: `MethodTable::Iterator`. Behind the last chain of the last bucket it reads
-- entries_[capa_], which is out of bounds; `past` is what stands there.
use marius.Base.{
  subst, List-cases, drop-get_or, get_or-out, drop-eq_nil, ltb→lt, ℕ, zero, suc, ◌+◌, ◌-◌, ◌≤◌, ◌<◌,
  ◌≡◌, refl, ap, sym, ◌∙◌, Bool, true, false, [], ◌∷◌, ◌++◌, length, get_or, drop, ltb,
  if◌then◌else◌, Bool-cases, inl, inr, arith,
}
use mathlib.Core.List.{flatten}
use marius.Ast.{Bytes}
use marius.Table.{Table}
use marius.Table.Bucket.{Chain}
use marius.Table.Laws.{IsValid}
use marius.Table.Listing.{length-flatten}

-- `entry_` with the entries behind it, and `idx_ + 1`.
pub record Iterator {ℓ} (V : Type ℓ) : Type ℓ where
  pub entry : Chain V
  pub idx : ℕ

-- The constructor.
abbrev pub new_iterator {ℓ} : {V : Type ℓ} → Iterator V
new_iterator = record { entry = []; idx = 0 }

module _ {ℓ} {V : Type ℓ} (past : Chain V) (t : Table V) where
  -- The inner loop, from position p on: the result of `next`, and the iterator. The fuel is one more
  -- than the buckets behind p.
  unfoldable pub scan : ℕ → ℕ → Chain V → Bool × Iterator V
  scan zero p entry = (false, record { entry = entry; idx = suc p })
  scan (suc fuel) p entry =
      let rest = scan fuel (suc p) entry in
      elim (get_or t.entries p past) [
        | [] ↦
            if ltb (suc p) t.capa
            then rest
            else (false, record { entry = entry; idx = suc (suc p) })
        | e ∷ c ↦ (true, record { entry = e ∷ c; idx = suc p })
      ]

  abbrev pub next_from : Chain V → ℕ → Bool × Iterator V
  next_from (e ∷ e' ∷ c) idx = (true, record { entry = e' ∷ c; idx = idx })
  next_from entry idx =
      if ltb t.capa idx
      then (false, record { entry = entry; idx = idx })
      else scan (suc (t.capa - idx)) idx entry

  unfoldable pub next : Iterator V → Bool × Iterator V
  unfolding scan
  next it = next_from it.entry it.idx

  abbrev pub first_of : Chain V → Chain V → Chain V
  first_of [] rest = []
  first_of (e ∷ c) rest = e ∷ rest

  abbrev pub visited : Bool × Iterator V → Chain V → Chain V
  visited (false, it) rest = []
  visited (true, it) rest = first_of it.entry rest

  -- `while(i.next())`, with the entries at which it stands. A loop that needs more fuel stops.
  unfoldable pub visit : ℕ → Iterator V → Chain V
  unfolding next
  visit zero it = []
  visit (suc fuel) it = visited (next it) (visit fuel (next it).1)

  -- What an iterator has still to come to.
  abbrev pub behind : Chain V → Chain V
  behind [] = []
  behind (e ∷ c) = c

  abbrev to_come : Chain V → ℕ → Chain V
  to_come entry idx = behind entry ++ flatten (drop idx t.entries)

  -- The answer of `next` where `rest` was still to come.
  abbrev Nexts : Chain V → Bool × Iterator V → Type ℓ
  Nexts rest (false, it) = rest ≡ []
  Nexts rest (true, it) =
      (e : Bytes × V) × (c : Chain V) × (it.entry ≡ e ∷ c)
      × (rest ≡ e ∷ to_come it.entry it.idx)
      × (it.idx ≤ suc t.capa)

  scan-Nexts :
      (fuel p : ℕ) (entry : Chain V)
      → past ≡ []
      → length t.entries ≡ t.capa
      → p ≤ t.capa
      → t.capa < fuel + p
      → Nexts (flatten (drop p t.entries)) (scan fuel p entry)
  unfolding scan flatten
  scan-Nexts zero p entry null size le lt = absurd (omega arith)
  scan-Nexts (suc fuel) p entry null size le lt = elim (Bool-cases (ltb p t.capa)) [
    | inr out ↦
        let here : get_or t.entries p past ≡ [] =
          get_or-out t.entries p past (ground arith) ∙ null in
        let none' : ltb (suc p) t.capa ≡ false = ground arith in
        rw (here, none', scan) (ap flatten (drop-eq_nil t.entries p (ground arith)))
    | inl in' ↦
        let split = drop-get_or t.entries p past (ground arith) in
        let small = ltb→lt p t.capa in' in
        elim (List-cases (get_or t.entries p past)) [
          | inl empty ↦
              let flat : flatten (drop p t.entries) ≡ flatten (drop (suc p) t.entries) =
                ap flatten (split ∙ ap (λ (b : Chain V). b ∷ drop (suc p) t.entries) empty) in
              elim (Bool-cases (ltb (suc p) t.capa)) [
                | inl more ↦
                    rw (empty, more, scan)
                      (subst (λ (r : Chain V). Nexts r (scan fuel (suc p) entry)) (sym flat)
                        (scan-Nexts fuel (suc p) entry null size small (omega arith)))
                | inr end' ↦
                    rw (empty, end', scan)
                      (flat ∙ ap flatten (drop-eq_nil t.entries (suc p) (ground arith)))
              ]
          | inr full ↦
              rw (full.2, scan)
                (
                  full.0,
                  full.1,
                  refl,
                  ap flatten (split ∙ ap (λ (b : Chain V). b ∷ drop (suc p) t.entries) full.2),
                  omega arith,
                )
        ]
  ]

  next-Nexts :
      (it : Iterator V)
      → past ≡ []
      → length t.entries ≡ t.capa
      → it.idx ≤ suc t.capa
      → Nexts (to_come it.entry it.idx) (next it)
  unfolding next flatten
  next-Nexts it null size le = from it.entry
    where
      scanned :
          (entry : Chain V)
          → Nexts (flatten (drop it.idx t.entries)) (
              if ltb t.capa it.idx
              then (false, record { entry = entry; idx = it.idx })
              else scan (suc (t.capa - it.idx)) it.idx entry)
      scanned entry = elim (Bool-cases (ltb t.capa it.idx)) [
        | inl past' ↦ rw past' (ap flatten (drop-eq_nil t.entries it.idx (ground arith)))
        | inr here ↦ rw here (
            scan-Nexts (suc (t.capa - it.idx)) it.idx entry null size (ground arith) (ground arith))
      ]

      from : (entry : Chain V) → Nexts (to_come entry it.idx) (next_from entry it.idx)
      from [] = scanned []
      from (e ∷ []) = scanned (e ∷ [])
      from (e ∷ e' ∷ c) = (e', c, refl, refl, le)

  visited-Nexts :
      (n : Bool × Iterator V) (rest come : Chain V)
      → Nexts come n
      → (suc (length (to_come n.1.entry n.1.idx)) ≡ length come
          → n.1.idx ≤ suc t.capa
          → rest ≡ to_come n.1.entry n.1.idx)
      → visited n rest ≡ come
  visited-Nexts (false, it) rest come none' h = sym none'
  visited-Nexts (true, it) rest come (e, c, at', splits, le) h =
      ap (λ (b : Chain V). first_of b rest) at'
      ∙ ap (◌∷◌ e) (h (sym (ap length splits)) le)
      ∙ sym splits

  visit-to_come :
      (fuel : ℕ) (it : Iterator V)
      → past ≡ []
      → length t.entries ≡ t.capa
      → it.idx ≤ suc t.capa
      → length (to_come it.entry it.idx) < fuel
      → visit fuel it ≡ to_come it.entry it.idx
  unfolding visit
  visit-to_come zero it null size le lt = absurd (omega arith)
  visit-to_come (suc fuel) it null size le lt =
      visited-Nexts (next it) (visit fuel (next it).1) (to_come it.entry it.idx)
        (next-Nexts it null size le)
        (λ shorter le'. visit-to_come fuel (next it).1 null size le' (omega arith))

  -- Where a null pointer stands behind the buckets, the loop over an iterator stands once at each
  -- entry of a valid table, bucket by bucket, and ends; it needs one turn more than there are entries.
  pub visit-flatten :
      (hash : Bytes → ℕ) (fuel : ℕ)
      → past ≡ []
      → IsValid hash t
      → t.size < fuel
      → visit fuel new_iterator ≡ flatten t.entries
  visit-flatten hash fuel null valid lt =
      visit-to_come fuel new_iterator null valid.buckets (omega arith)
        (subst (λ (n : ℕ). n < fuel) (valid.counted ∙ sym (length-flatten t.entries)) lt)
