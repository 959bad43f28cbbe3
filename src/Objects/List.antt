-- ===== src/Objects/List.antt =====
-- vm/list.cpp: lists as chains of nodes.
use marius.Base.Int.{ℤ, pos, negsuc, eq_ℤ}
use marius.Base.{
  sym, ◌∙◌, get_or-snoc, get_or-take, append-nil, append_assoc, length-append, ltb, ℕ, zero, suc,
  ◌+◌, ◌≡◌, refl, ap, List, [], ◌∷◌, ◌++◌, if◌then◌else◌, length, get_or, arith, take,
}

-- The nodes from `head_` on, and `size_`.
pub record LinkedList {ℓ} (A : Type ℓ) : Type ℓ where
  pub nodes : List A
  pub size : ℕ

module _ {ℓ} {A : Type ℓ} where
  -- `List::List`
  unfoldable pub new_list : LinkedList A
  new_list = record { nodes = []; size = 0 }

  -- `List::push`: the walk to the last node.
  unfoldable pub push_node : List A → A → List A
  push_node [] v = v ∷ []
  push_node (n ∷ ns) v = n ∷ push_node ns v

  unfoldable pub push : LinkedList A → A → LinkedList A
  unfolding push_node
  push l v = record { nodes = push_node l.nodes v; size = suc l.size }

  -- The loop of `List::get`. The test in front of it has no effect, as its `OOP::nil()` is not
  -- returned.
  unfoldable pub get_node : A → List A → ℕ → ℤ → A
  get_node nil [] i idx = nil
  get_node nil (n ∷ ns) i idx = if eq_ℤ (pos i) idx then n else get_node nil ns (suc i) idx

  unfoldable pub get : A → LinkedList A → ℤ → A
  unfolding get_node
  get nil l idx = get_node nil l.nodes 0 idx

  -- The loop of `List::make` over the first registers from `fp` on.
  unfoldable pub make_from : List A → LinkedList A → LinkedList A
  make_from [] l = l
  make_from (v ∷ vs) l = make_from vs (push l v)

  unfoldable pub make : List A → ℕ → LinkedList A
  unfolding make_from new_list
  make fp size = make_from (take size fp) new_list

  -- `size_` is the number of nodes.
  abbrev pub IsSized : LinkedList A → Type 0
  IsSized l = l.size ≡ length l.nodes

  push_node-append : (ns : List A) (v : A) → push_node ns v ≡ ns ++ v ∷ []
  unfolding push_node
  push_node-append [] v = refl
  push_node-append (n ∷ ns) v = ap (◌∷◌ n) (push_node-append ns v)

  get_node-get_or :
      (nil : A) (ns : List A) (i idx j : ℕ)
      → idx ≡ i + j
      → get_node nil ns i (pos idx) ≡ get_or ns j nil
  unfolding get_node
  get_node-get_or nil [] i idx j e = refl
  get_node-get_or nil (n ∷ ns) i idx zero e = ground arith
  get_node-get_or nil (n ∷ ns) i idx (suc j) e =
      ground (arith, get_node-get_or nil ns (suc i) idx j)

  get_node-negative : (nil : A) (ns : List A) (i idx : ℕ) → get_node nil ns i (negsuc idx) ≡ nil
  unfolding get_node
  get_node-negative nil [] i idx = refl
  get_node-negative nil (n ∷ ns) i idx = get_node-negative nil ns (suc i) idx

  -- What a list holds after a push: what it held, and the pushed value at the place of its old size.
  pub get-push :
      (nil : A) (l : LinkedList A) (v : A) (idx : ℤ)
      → IsSized l
      → get nil (push l v) idx ≡ (if eq_ℤ idx (pos l.size) then v else get nil l idx)
  unfolding get push
  get-push nil l v (pos idx) h =
      get_node-get_or nil (push_node l.nodes v) 0 idx idx (omega arith)
      ∙ ap (λ (xs : List A). get_or xs idx nil) (push_node-append l.nodes v)
      ∙ get_or-snoc l.nodes idx v nil
      ∙ rw (h, get_node-get_or nil l.nodes 0 idx idx (omega arith)) refl
  get-push nil l v (negsuc idx) h =
      get_node-negative nil (push_node l.nodes v) 0 idx ∙ sym (get_node-negative nil l.nodes 0 idx)

  pub push-IsSized : (l : LinkedList A) (v : A) → IsSized l → IsSized (push l v)
  unfolding push
  push-IsSized l v h =
      omega (arith, ap length (push_node-append l.nodes v), length-append l.nodes (v ∷ []))

  nodes-make_from : (vs : List A) (l : LinkedList A) → (make_from vs l).nodes ≡ l.nodes ++ vs
  unfolding make_from push
  nodes-make_from [] l = sym (append-nil l.nodes)
  nodes-make_from (v ∷ vs) l =
      nodes-make_from vs (push l v)
      ∙ ap (λ (xs : List A). xs ++ vs) (push_node-append l.nodes v)
      ∙ append_assoc l.nodes (v ∷ []) vs

  -- A list made of registers holds the first `size` of them in their order, and nil behind them.
  pub get-make :
      (nil : A) (fp : List A) (size idx : ℕ)
      → get nil (make fp size) (pos idx) ≡ (if ltb idx size then get_or fp idx nil else nil)
  unfolding get make new_list
  get-make nil fp size idx =
      get_node-get_or nil (make fp size).nodes 0 idx idx (omega arith)
      ∙ ap (λ (xs : List A). get_or xs idx nil) (nodes-make_from (take size fp) new_list)
      ∙ get_or-take size fp idx nil
