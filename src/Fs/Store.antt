-- ===== src/Fs/Store.antt =====
-- The invariant of the node store of src/fs/filesystem.c: first children and next siblings were
-- allocated later, parents earlier, and what a directory links to has it as its parent. So no walk
-- can go in a circle, and no node has two places.
use hz_os.Base.{
  ℕ, ◌+◌, ◌≤◌, ◌<◌, ◌≡◌, ◌≢◌, Option, none, some, List, [], ◌∷◌, ◌++◌, arith, refl, ap, sym, ◌∙◌,
  subst, length, length-append, length-modify, get_or-modify_self, get_or-modify_ne,
  get_or-append_left, get_or-append_length, ℕ_discrete, modify,
}
use hz_os.Fs.{Node, node_at, null_node}

pub record IsNode (ns : List Node) (i : ℕ) : Type 0 where
  pub child_up :
      (c : ℕ)
      → (node_at ns i).first_child ≡ some c
      → (i < c) × (c < length ns) × ((node_at ns c).parent ≡ some i)
  pub sibling_up :
      (s : ℕ)
      → (node_at ns i).next_sibling ≡ some s
      → (i < s) × (s < length ns) × ((node_at ns s).parent ≡ (node_at ns i).parent)
  pub parent_down : (p : ℕ) → (node_at ns i).parent ≡ some p → p < i
  pub name_fits : length (node_at ns i).name ≤ 31

abbrev pub IsStore : List Node → Type 0
IsStore ns = (i : ℕ) → i < length ns → IsNode ns i

-- The node itself, but for its links to children and siblings.
pub record SameNode (n m : Node) : Type 0 where
  pub name : m.name ≡ n.name
  pub kind : m.kind ≡ n.kind
  pub parent : m.parent ≡ n.parent
  pub content : m.content ≡ n.content
  pub content_len : m.content_len ≡ n.content_len

-- Setting the first child, or the next sibling.
pub data Link : Type 0 where
  child sibling : Link

abbrev pub set_link : Link → ℕ → Node → Node
set_link child c n = record n { first_child = some c }
set_link sibling c n = record n { next_sibling = some c }

-- The store `ns` with `node` allocated and a link to it set in the node `x`.
abbrev pub linked : List Node → Node → Link → ℕ → List Node
linked ns node which x = modify (ns ++ (node ∷ [])) x (set_link which (length ns))

module _ (ns : List Node) (node : Node) (which : Link) (x : ℕ) (lt : x < length ns) where
  pub length-linked : length (linked ns node which x) ≡ length ns + 1
  length-linked = omega (
    arith,
    length-modify (ns ++ (node ∷ [])) x (set_link which (length ns)),
    length-append ns (node ∷ []),
  )

  pub linked_self : node_at (linked ns node which x) x ≡ set_link which (length ns) (node_at ns x)
  linked_self =
      get_or-modify_self (ns ++ (node ∷ [])) x (set_link which (length ns)) null_node
        (omega (arith, length-append ns (node ∷ [])))
      ∙ ap (set_link which (length ns)) (get_or-append_left ns (node ∷ []) x null_node lt)

  pub linked_ne :
      (i : ℕ) → i < length ns → x ≢ i → node_at (linked ns node which x) i ≡ node_at ns i
  linked_ne i h ne =
      get_or-modify_ne (ns ++ (node ∷ [])) x i (set_link which (length ns)) null_node ne
      ∙ get_or-append_left ns (node ∷ []) i null_node h

  pub linked_new : node_at (linked ns node which x) (length ns) ≡ node
  linked_new =
      get_or-modify_ne (ns ++ (node ∷ [])) x (length ns) (set_link which (length ns)) null_node
        (omega arith)
      ∙ get_or-append_length ns [] node null_node

  SameNode-set_link : (w : Link) (c : ℕ) (n : Node) → SameNode n (set_link w c n)
  SameNode-set_link child c n = record {
    name = refl;
    kind = refl;
    parent = refl;
    content = refl;
    content_len = refl;
  }
  SameNode-set_link sibling c n = record {
    name = refl;
    kind = refl;
    parent = refl;
    content = refl;
    content_len = refl;
  }

  pub linked-SameNode :
      (i : ℕ) → i < length ns → SameNode (node_at ns i) (node_at (linked ns node which x) i)
  linked-SameNode i h = elim (ℕ_discrete x i) [
    | yes e ↦
        subst (λ j. SameNode (node_at ns j) (node_at (linked ns node which x) j)) e
          (rw linked_self (SameNode-set_link which (length ns) (node_at ns x)))
    | no ne ↦
        rw (linked_ne i h ne)
          (record { name = refl; kind = refl; parent = refl; content = refl; content_len = refl })
  ]

pub some_inj : {o : Option ℕ} {a b : ℕ} → o ≡ some a → o ≡ some b → a ≡ b
some_inj p q = ground arith

-- Where the new node has no links, and the node `x` is its parent without a child, or its
-- last sibling, the store stays one.
pub data Fits (ns : List Node) (node : Node) (parent : ℕ) : Link → ℕ → Type 0 where
  first : {x : ℕ} → x ≡ parent → Fits ns node parent child x
  last : {x : ℕ} → (node_at ns x).parent ≡ some parent → Fits ns node parent sibling x

module _ (ns : List Node) (s : IsStore ns) (node : Node) (parent : ℕ)
    (is_parent : node.parent ≡ some parent) (parent_in : parent < length ns)
    (no_child : node.first_child ≡ none) (no_sibling : node.next_sibling ≡ none)
    (short : length node.name ≤ 31) where
  IsNode-new : (which : Link) (x : ℕ) → x < length ns → IsNode (linked ns node which x) (length ns)
  IsNode-new which x lt =
      let e = linked_new ns node which x lt in
      record {
        child_up = λ c h. absurd (ground (arith, ap (λ (n : Node). n.first_child) e));
        sibling_up = λ c h. absurd (ground (arith, ap (λ (n : Node). n.next_sibling) e));
        parent_down = λ p h. ground (arith, ap (λ (n : Node). n.parent) e);
        name_fits = rw e short;
      }

  -- A node that is not touched.
  IsNode-old :
      (which : Link) (x i : ℕ)
      → x < length ns
      → i < length ns
      → x ≢ i
      → IsNode (linked ns node which x) i
  IsNode-old which x i lt h ne =
      let e = linked_ne ns node which x lt i h ne in
      let len = length-linked ns node which x lt in
      let n = s i h in
      record {
        child_up = λ c g.
            let (up, inside, par) = n.child_up c (sym (ap (λ (n : Node). n.first_child) e) ∙ g) in
            (up, omega arith, (linked-SameNode ns node which x lt c inside).parent ∙ par);
        sibling_up = λ c g.
            let (up, inside, par) =
              n.sibling_up c (sym (ap (λ (n : Node). n.next_sibling) e) ∙ g) in
            (
              up,
              omega arith,
              (linked-SameNode ns node which x lt c inside).parent
                  ∙ par
                  ∙ sym (ap (λ (n : Node). n.parent) e),
            );
        parent_down = λ p g. n.parent_down p (sym (ap (λ (n : Node). n.parent) e) ∙ g);
        name_fits = rw e n.name_fits;
      }

  IsNode-linked :
      (which : Link) (x : ℕ)
      → x < length ns
      → Fits ns node parent which x
      → IsNode (linked ns node which x) x
  IsNode-linked child x lt (first at_parent) =
      let e = linked_self ns node child x lt in
      let new = linked_new ns node child x lt in
      let len = length-linked ns node child x lt in
      let n = s x lt in
      record {
        child_up = λ c g.
            let same : length ns ≡ c = some_inj (ap (λ (m : Node). m.first_child) e) g in
            (
              omega arith,
              omega arith,
              subst (λ a. (node_at (linked ns node child x) a).parent ≡ some x) same
                  (ap (λ (m : Node). m.parent) new ∙ is_parent ∙ ap some (sym at_parent)),
            );
        sibling_up = λ c g.
            let (up, inside, par) =
              n.sibling_up c (sym (ap (λ (m : Node). m.next_sibling) e) ∙ g) in
            (
              up,
              omega arith,
              (linked-SameNode ns node child x lt c inside).parent
                  ∙ par
                  ∙ sym (ap (λ (m : Node). m.parent) e),
            );
        parent_down = λ p g. n.parent_down p (sym (ap (λ (m : Node). m.parent) e) ∙ g);
        name_fits = rw e n.name_fits;
      }
  IsNode-linked sibling x lt (last par) =
      let e = linked_self ns node sibling x lt in
      let new = linked_new ns node sibling x lt in
      let len = length-linked ns node sibling x lt in
      let n = s x lt in
      record {
        child_up = λ c g.
            let (up, inside, up_par) =
              n.child_up c (sym (ap (λ (m : Node). m.first_child) e) ∙ g) in
            (up, omega arith, (linked-SameNode ns node sibling x lt c inside).parent ∙ up_par);
        sibling_up = λ c g.
            let same : length ns ≡ c = some_inj (ap (λ (m : Node). m.next_sibling) e) g in
            (
              omega arith,
              omega arith,
              subst
                  (λ a.
                    (node_at (linked ns node sibling x) a).parent
                    ≡ (node_at (linked ns node sibling x) x).parent)
                  same
                  (ap (λ (m : Node). m.parent) new
                    ∙ is_parent
                    ∙ sym par
                    ∙ sym (ap (λ (m : Node). m.parent) e)),
            );
        parent_down = λ p g. n.parent_down p (sym (ap (λ (m : Node). m.parent) e) ∙ g);
        name_fits = rw e n.name_fits;
      }

  pub IsStore-linked :
      (which : Link) (x : ℕ)
      → x < length ns
      → Fits ns node parent which x
      → IsStore (linked ns node which x)
  IsStore-linked which x lt fit i h = elim (ℕ_discrete i (length ns)) [
    | yes e ↦ subst (IsNode (linked ns node which x)) (sym e) (IsNode-new which x lt)
    | no old ↦ elim (ℕ_discrete x i) [
      | yes e ↦ subst (IsNode (linked ns node which x)) e (IsNode-linked which x lt fit)
      | no ne ↦ IsNode-old which x i lt (omega (arith, length-linked ns node which x lt)) ne
    ]
  ]
