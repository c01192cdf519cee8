-- ===== src/Fs/Make.antt =====
-- create_node and add_child of src/fs/filesystem.c: what a directory lists afterwards.
use hz_os.Base.{
  ℕ, ◌+◌, ◌<◌, ◌≡◌, ◌≢◌, inl, inr, none, some, List, [], ◌∷◌, ◌++◌, arith, refl, ap, sym, ◌∙◌,
  subst, length, length-append, length-take, ℕ_discrete, All, All-mono, Option-cases, modify,
  get_or-append_left,
}
use hz_os.Fs.{Node, NodeType, node_at, null_node, last_sibling, create_node, add_child}
use hz_os.Fs.Store.{
  IsStore, Link, child, sibling, linked, set_link, length-linked, linked_self, linked_ne,
  linked_new, linked-SameNode, SameNode, Fits, some_inj, first, last, IsStore-linked,
}
use hz_os.Fs.Chain.{
  Chain, end, link, Chain-of, last_sibling-IsLast, last_sibling-agree, Chain-All, Chain-keep,
  Chain-unique, Chain-empty, Chain-extend,
}

-- The directory `d` lists the nodes `cs`.
abbrev pub Lists : List Node → ℕ → List ℕ → Type 0
Lists ns d cs = Chain ns (node_at ns d).first_child cs

-- What adding `node` to the directory `parent` leaves.
pub record Added (ns : List Node) (node : Node) (parent : ℕ) (ns' : List Node) : Type 0 where
  pub store : IsStore ns'
  pub count : length ns' ≡ length ns + 1
  pub new : node_at ns' (length ns) ≡ node
  pub old : (i : ℕ) → i < length ns → SameNode (node_at ns i) (node_at ns' i)
  pub listed : (cs : List ℕ) → Lists ns parent cs → Lists ns' parent (cs ++ (length ns ∷ []))
  pub others : (d : ℕ) (cs : List ℕ) → d < length ns → parent ≢ d → Lists ns d cs → Lists ns' d cs

module _ (ns : List Node) (s : IsStore ns) (name : List ℕ) (kind : NodeType) (parent : ℕ)
    (inside : parent < length ns) where
  abbrev made : Node
  made = create_node name kind (some parent)

  IsStore-made :
      (which : Link) (x : ℕ)
      → x < length ns
      → Fits ns made parent which x
      → IsStore (linked ns made which x)
  unfolding create_node
  IsStore-made which x lt fit =
      IsStore-linked ns s made parent refl inside refl refl (omega (arith, length-take 31 name))
        which x lt fit

  made_ends : (made.next_sibling ≡ none) × (made.first_child ≡ none)
  unfolding create_node
  made_ends = (refl, refl)

  new_listed :
      (which : Link) (x : ℕ)
      → x < length ns
      → (node_at (linked ns made which x) (length ns)).next_sibling ≡ none
  new_listed which x lt =
      ap (λ (n : Node). n.next_sibling) (linked_new ns made which x lt) ∙ made_ends.0

  -- The nodes that a directory lists are its own.
  own :
      (d : ℕ) {cs : List ℕ}
      → d < length ns
      → Lists ns d cs
      → All (λ i. (i < length ns) × ((node_at ns i).parent ≡ some d)) cs
  own d h t = Chain-All ns s (some d) t λ c e. let (up, lt, par) = (s d h).child_up c e in (lt, par)

  -- The link that is not set stays.
  next-child :
      (x i : ℕ)
      → x < length ns
      → i < length ns
      → (node_at (linked ns made child x) i).next_sibling ≡ (node_at ns i).next_sibling
  next-child x i lt h = elim (ℕ_discrete x i) [
    | yes e ↦
        subst (λ j. (node_at (linked ns made child x) j).next_sibling ≡ (node_at ns j).next_sibling)
          e (ap (λ (n : Node). n.next_sibling) (linked_self ns made child x lt))
    | no ne ↦ ap (λ (n : Node). n.next_sibling) (linked_ne ns made child x lt i h ne)
  ]

  first-sibling :
      (x i : ℕ)
      → x < length ns
      → i < length ns
      → (node_at (linked ns made sibling x) i).first_child ≡ (node_at ns i).first_child
  first-sibling x i lt h = elim (ℕ_discrete x i) [
    | yes e ↦
        subst (λ j. (node_at (linked ns made sibling x) j).first_child ≡ (node_at ns j).first_child)
          e (ap (λ (n : Node). n.first_child) (linked_self ns made sibling x lt))
    | no ne ↦ ap (λ (n : Node). n.first_child) (linked_ne ns made sibling x lt i h ne)
  ]

  -- The first child of a directory.
  first-Added :
      (node_at ns parent).first_child ≡ none → Added ns made parent (linked ns made child parent)
  first-Added e =
      let ns' = linked ns made child parent in
      let now : (node_at ns' parent).first_child ≡ some (length ns) =
        ap (λ (n : Node). n.first_child) (linked_self ns made child parent inside) in
      let alone : Chain ns' (some (length ns)) (length ns ∷ []) =
        link (subst (λ o. Chain ns' o []) (sym (new_listed child parent inside)) end) in
      record {
        store = IsStore-made child parent inside (first refl);
        count = length-linked ns made child parent inside;
        new = linked_new ns made child parent inside;
        old = linked-SameNode ns made child parent inside;
        listed = λ cs t.
            subst (λ xs. Chain ns' (node_at ns' parent).first_child (xs ++ (length ns ∷ [])))
              (sym (Chain-empty ns t e))
              (subst (λ o. Chain ns' o (length ns ∷ [])) (sym now) alone);
        others = λ d cs h ne t.
            subst (λ o. Chain ns' o cs)
              (sym
                (ap (λ (n : Node). n.first_child) (linked_ne ns made child parent inside d h ne)))
              (Chain-keep ns ns' (length ns) (length ns) (λ j lt far. next-child parent j inside lt)
                t (All-mono cs (λ i p. (p.0, omega (arith, p.0))) (own d h t)));
      }

  -- A further child, behind the last one.
  last-Added :
      (c : ℕ)
      → (node_at ns parent).first_child ≡ some c
      → Added ns made parent (linked ns made sibling (last_sibling ns (length ns) c))
  last-Added c e =
      let l = last_sibling ns (length ns) c in
      let ns' = linked ns made sibling l in
      let (up, c_in, c_par) = (s parent inside).child_up c e in
      let (cs, t, short) = Chain-of ns s (length ns) parent (some c) (up, c_in) (omega arith) in
      let r = last_sibling-IsLast ns s (length ns) t c_in (omega arith) in
      let l_par : (node_at ns l).parent ≡ some parent = r.par ∙ c_par in
      let agree = λ (j : ℕ) (lt : j < length ns) (far : l ≢ j).
        ap (λ (n : Node). n.next_sibling) (linked_ne ns made sibling l r.inside j lt far) in
      record {
        store = IsStore-made sibling l r.inside (last l_par);
        count = length-linked ns made sibling l r.inside;
        new = linked_new ns made sibling l r.inside;
        old = linked-SameNode ns made sibling l r.inside;
        listed = λ ds u.
            subst (λ o. Chain ns' o (ds ++ (length ns ∷ [])))
              (sym (first-sibling l parent r.inside inside ∙ e))
              (subst (λ xs. Chain ns' (some c) (xs ++ (length ns ∷ [])))
                (Chain-unique ns t (subst (λ o. Chain ns o ds) e u))
                (Chain-extend ns ns' l (length ns) agree s
                  (ap (λ (n : Node). n.next_sibling) (linked_self ns made sibling l r.inside))
                  (new_listed sibling l r.inside) (length ns) t c_in (omega arith) refl));
        others = λ d ds h ne u.
            subst (λ o. Chain ns' o ds) (sym (first-sibling l d r.inside h))
              (Chain-keep ns ns' l (length ns) agree u (
                All-mono ds (λ i p. (p.0, λ same. ne (some_inj (rw same at l_par) p.1)))
                  (own d h u)));
      }

  before : (i : ℕ) → i < length ns → node_at (ns ++ (made ∷ [])) i ≡ node_at ns i
  before i h = get_or-append_left ns (made ∷ []) i null_node h

  add_child_first :
      (node_at ns parent).first_child ≡ none
      → add_child (ns ++ (made ∷ [])) parent (length ns) ≡ linked ns made child parent
  unfolding add_child
  add_child_first e = rw (before parent inside, e, add_child)

  add_child_last :
      (c : ℕ)
      → (node_at ns parent).first_child ≡ some c
      → add_child (ns ++ (made ∷ [])) parent (length ns)
        ≡ linked ns made sibling (last_sibling ns (length ns) c)
  unfolding add_child
  add_child_last c e =
      let (up, c_in, c_par) = (s parent inside).child_up c e in
      let (cs, t, short) = Chain-of ns s (length ns) parent (some c) (up, c_in) (omega arith) in
      let same =
        ap (λ f. last_sibling (ns ++ (made ∷ [])) f c) (length-append ns (made ∷ []))
        ∙ last_sibling-agree ns (ns ++ (made ∷ [])) s
            (λ j h. ap (λ (n : Node). n.next_sibling) (before j h)) (length ns) 1 t c_in
            (omega arith) in
      rw (before parent inside, e, add_child)
        (ap (λ l. modify (ns ++ (made ∷ [])) l (set_link sibling (length ns))) same)

  pub add_child-Added : Added ns made parent (add_child (ns ++ (made ∷ [])) parent (length ns))
  add_child-Added = elim (Option-cases (node_at ns parent).first_child) [
    | inl e ↦ rw (add_child_first e) (first-Added e)
    | inr (c, e) ↦ rw (add_child_last c e) (last-Added c e)
  ]
