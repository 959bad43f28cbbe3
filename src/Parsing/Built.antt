-- ===== src/Parsing/Built.antt =====
-- The identities in the state of the parser: which of the nodes made so far are imports or traits, and
-- the rules by which an action keeps to it.
use marius.Base.{
  Bool-cases, get_elem?-append, ℕ, suc, ◌≡◌, refl, ap, sym, ◌∙◌, ◌≢◌, Bool, true, false, Option,
  none, some, List, [], ◌∷◌, ◌++◌, length, get_elem?, append_assoc, append-nil, length-append,
  arith, subst, get_elem?-append_left, inl, inr, ltb,
}
use marius.Ast.{Meta, Node, Scope}
use marius.Tracking.Identities.{NodeIds, NodesIds, ArgumentsIds, ScopeIds}
use marius.Tracking.Tree.{scope_self}
use mathlib.Core.Option.{none-ne-some, some-injective}
use marius.Parsing.State.{
  M, ParserState, Context, ArgInfo, CascadeNode, ◌>>=◌, pure, new_node, make_at, make, get_line,
  check_line,
}

module _ (imports : ℕ → Bool) where
  abbrev pub ContextsIds : List Context → Type 0
  ContextsIds [] = Unit {0}
  ContextsIds (c ∷ cs) = ArgumentsIds imports c.arg_objs × ContextsIds cs

  abbrev pub InfosIds : List ArgInfo → Type 0
  InfosIds [] = Unit {0}
  InfosIds (i ∷ is) = NodesIds imports i.nodes × InfosIds is

  abbrev pub CascadesIds : List CascadeNode → Type 0
  CascadesIds [] = Unit {0}
  CascadesIds (c ∷ cs) = NodeIds imports c.recv × CascadesIds cs

  abbrev pub TopIds : Option Scope → Type 0
  TopIds none = Unit {0}
  TopIds (some t) = ScopeIds imports t × (scope_self t ≢ none)

  abbrev pub ResultIds : Option Node → Type 0
  ResultIds none = Unit {0}
  ResultIds (some n) = NodeIds imports n

  pub record StateIds (s : ParserState) : Type 0 where
    pub context : ArgumentsIds imports s.context.arg_objs
    pub stack : ContextsIds s.stack
    pub arg_info : NodesIds imports s.arg_info.nodes
    pub arg_infos : InfosIds s.arg_infos
    pub cascades : CascadesIds s.cascades
    pub top : TopIds s.top

-- `imports` tells of the nodes made so far what `kinds` does.
abbrev pub Agrees : List Bool → (ℕ → Bool) → Type 0
Agrees kinds imports = (i : ℕ) (b : Bool) → get_elem? kinds i ≡ some b → imports i ≡ b

abbrev pub Known : List Bool → ((ℕ → Bool) → Type 0) → Type 0
Known kinds P = (imports : ℕ → Bool) → Agrees kinds imports → P imports

pub record Built (kinds : List Bool) (s : ParserState) : Type 0 where
  pub counted : length kinds ≡ s.made
  pub held : Known kinds (λ imports. StateIds imports s)

pub record Result (kinds : List Bool) (t : ParserState) (P : (ℕ → Bool) → Type 0) : Type 0 where
  pub more : List Bool
  pub built : Built (kinds ++ more) t
  pub knows : Known (kinds ++ more) P

pub Known-more :
    (kinds more : List Bool) (P : (ℕ → Bool) → Type 0) → Known kinds P → Known (kinds ++ more) P
Known-more kinds more P h imports agrees =
    h imports (λ i b e. agrees i b (get_elem?-append_left kinds more i b e))

-- Where Pre is known, what m gives has Post.
pub record Builds {A : Type 0} (m : M A) (Pre : (ℕ → Bool) → Type 0)
    (Post : (ℕ → Bool) → A → Type 0) : Type 0 where
  pub run :
      (kinds : List Bool) (s : ParserState) (a : A) (t : ParserState)
      → Built kinds s
      → Known kinds Pre
      → m s ≡ some (a, t)
      → Result kinds t (λ imports. Post imports a)

module _ {A B : Type 0} (k : A → M B) (u : ParserState) (b : B) where
  bind-cases :
      (r : Option (A × ParserState))
      → elim r [ none ↦ none | some (a, t) ↦ k a t ] ≡ some (b, u)
      → (a : A) × (t : ParserState) × (r ≡ some (a, t)) × (k a t ≡ some (b, u))
  bind-cases none e = absurd (none-ne-some (b, u) e)
  bind-cases (some (a, t)) e = (a, t, refl, e)

module _ {A B : Type 0} (m : M A) (k : A → M B) where
  pub bind-Builds :
      {Pre : (ℕ → Bool) → Type 0} {Mid : (ℕ → Bool) → A → Type 0} {Post : (ℕ → Bool) → B → Type 0}
      → Builds m Pre Mid
      → ((a : A) → Builds (k a) (λ imports. Pre imports × Mid imports a) Post)
      → Builds (m >>= k) Pre Post
  bind-Builds {Pre = Pre} {Post = Post} one two = record {
    run = λ kinds s b u built pre e.
        let (a, t, got, rest) = bind-cases k u b (m s) e in
        let r = one.run kinds s a t built pre got in
        let q =
          (two a).run (kinds ++ r.more) t b u r.built
            (λ imports agrees.
              (Known-more kinds r.more Pre pre imports agrees, r.knows imports agrees))
            rest in
        record {
          more = r.more ++ q.more;
          built = subst (λ (ks : List Bool). Built ks u) (append_assoc kinds r.more q.more) q.built;
          knows =
              subst (λ (ks : List Bool). Known ks (λ imports. Post imports b))
                (append_assoc kinds r.more q.more) q.knows;
        };
  }

module _ {A : Type 0} (Pre : (ℕ → Bool) → Type 0) (Post : (ℕ → Bool) → A → Type 0) where
  pub result-of :
      (kinds : List Bool) (x y : A × ParserState)
      → Result kinds x.1 (λ imports. Post imports x.0)
      → some x ≡ some y
      → Result kinds y.1 (λ imports. Post imports y.0)
  result-of kinds x y r e =
      subst (λ (z : A × ParserState). Result kinds z.1 (λ imports. Post imports z.0))
        (some-injective x y e) r

  pub result-kept :
      (kinds : List Bool) (s : ParserState) (a : A) (t : ParserState)
      → Built kinds s
      → Known kinds Pre
      → s.made ≡ t.made
      → ((imports : ℕ → Bool)
          → Pre imports
          → StateIds imports s
          → StateIds imports t × Post imports a)
      → Result kinds t (λ imports. Post imports a)
  result-kept kinds s a t built pre made keeps =
      let same : kinds ≡ kinds ++ [] = sym (append-nil kinds) in
      record {
        more = [];
        built =
            subst (λ (ks : List Bool). Built ks t) same
              (record {
                counted = built.counted ∙ made;
                held = λ imports agrees.
                    (keeps imports (pre imports agrees) (built.held imports agrees)).0;
              });
        knows =
            subst (λ (ks : List Bool). Known ks (λ imports. Post imports a)) same
              (λ imports agrees.
                (keeps imports (pre imports agrees) (built.held imports agrees)).1);
      }

module _ {A : Type 0} {Pre : (ℕ → Bool) → Type 0} {Post : (ℕ → Bool) → A → Type 0} where
  -- A step that makes no node.
  pub keep-Builds :
      (val : ParserState → A) (f : ParserState → ParserState)
      → ((s : ParserState) → s.made ≡ (f s).made)
      → ((s : ParserState) (imports : ℕ → Bool)
          → Pre imports
          → StateIds imports s
          → StateIds imports (f s) × Post imports (val s))
      → Builds (λ s. some (val s, f s)) Pre Post
  keep-Builds val f made keeps = record {
    run = λ kinds s a t built pre e.
        result-of Pre Post kinds (val s, f s) (a, t)
          (result-kept Pre Post kinds s (val s) (f s) built pre (made s) (keeps s)) e;
  }

  pub pure-Builds :
      (a : A) → ((imports : ℕ → Bool) → Pre imports → Post imports a) → Builds (pure a) Pre Post
  pure-Builds a h =
      keep-Builds (λ s. a) (λ s. s) (λ s. refl) (λ s imports pre ids. (ids, h imports pre))

new_kind :
    (kinds : List Bool) (b : Bool) (n : ℕ)
    → length kinds ≡ n
    → get_elem? (kinds ++ b ∷ []) n ≡ some b
new_kind kinds b n e = get_elem?-append kinds (b ∷ []) n 0 (omega (arith, e))

-- A new node is, or is not, an import or a trait.
pub new_node-Builds :
    {Pre : (ℕ → Bool) → Type 0} (b : Bool) → Builds new_node Pre (λ imports id. imports id ≡ b)
new_node-Builds {Pre = Pre} b = record {
  run = λ kinds s a t built pre e.
      result-of Pre (λ imports id. imports id ≡ b) kinds (s.made, record s { made = suc s.made })
        (a, t)
        (record {
          more = b ∷ [];
          built = record {
            counted = omega (arith, built.counted, length-append kinds (b ∷ []));
            held = λ imports agrees.
                let ids =
                  Known-more kinds (b ∷ []) (λ im. StateIds im s) built.held imports agrees in
                record {
                  context = ids.context;
                  stack = ids.stack;
                  arg_info = ids.arg_info;
                  arg_infos = ids.arg_infos;
                  cascades = ids.cascades;
                  top = ids.top;
                };
          };
          knows = λ imports agrees. agrees s.made b (new_kind kinds b s.made built.counted);
        })
        e;
}

pub check_line-Builds :
    {Pre : (ℕ → Bool) → Type 0} (l : ℕ) → Builds (check_line l) Pre (λ imports u. Unit {0})
check_line-Builds {Pre = Pre} l = record {
  run = λ kinds s a t built pre e. elim (Bool-cases (ltb l 1000)) [
    | inl small ↦
        result-of Pre (λ imports u. Unit {0}) kinds (tt, s) (a, t)
          (result-kept Pre (λ imports u. Unit {0}) kinds s tt s built pre refl
            (λ imports pre ids. (ids, tt)))
          (sym (ap (λ (b : Bool). elim b [ true ↦ some (tt, s) | false ↦ none ]) small) ∙ e)
    | inr large ↦ absurd (
        none-ne-some (a, t)
          (sym (ap (λ (b : Bool). elim b [ true ↦ some (tt, s) | false ↦ none ]) large) ∙ e))
  ];
}

-- `make_at` gives what its node keeps to.
module _ {Pre : (ℕ → Bool) → Type 0} (b : Bool) (f : Meta → Node)
    (keeps : (imports : ℕ → Bool) (m : Meta)
      → Pre imports
      → imports m.id ≡ b
      → NodeIds imports (f m)) where
  pub make_at-Builds : (l : ℕ) → Builds (make_at l f) Pre (λ imports n. NodeIds imports n)
  make_at-Builds l = bind-Builds new_node _ (new_node-Builds b) (λ id.
      bind-Builds (check_line l) _ (check_line-Builds l) (λ u.
        pure-Builds (f (record { id = id; line = l }))
          (λ imports pre. keeps imports (record { id = id; line = l }) pre.0.0 pre.0.1)))

pub get-Builds :
    {A : Type 0} {Pre : (ℕ → Bool) → Type 0} (val : ParserState → A)
    → Builds (λ s. some (val s, s)) Pre (λ imports a. Unit {0})
get-Builds val = keep-Builds val (λ s. s) (λ s. refl) (λ s imports pre ids. (ids, tt))

pub make-Builds :
    {Pre : (ℕ → Bool) → Type 0} (b : Bool) (f : Meta → Node)
    → ((imports : ℕ → Bool) (m : Meta) → Pre imports → imports m.id ≡ b → NodeIds imports (f m))
    → Builds (make f) Pre (λ imports n. NodeIds imports n)
make-Builds b f keeps =
    bind-Builds get_line _ (get-Builds (λ s. s.line))
      (λ l. make_at-Builds b f (λ imports m pre. keeps imports m pre.0) l)
