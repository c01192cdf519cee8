-- ===== src/Fs/Chain.antt =====
-- The children of a directory of src/fs/filesystem.c as a list, and the walks over them.
use hz_os.Base.{
  ℕ, zero, suc, ◌+◌, ◌≤◌, ◌<◌, ◌≡◌, ◌≢◌, inl, inr, Option, none, some, List, [], ◌∷◌, ◌++◌, arith,
  refl, ap, sym, ◌∙◌, subst, length, All, if◌then◌else◌, Option-cases,
}
use hz_os.Fs.{Node, node_at, walk, same_name, last_sibling}
use hz_os.Fs.Store.{IsStore}

-- The siblings from `o` on.
pub data Chain (ns : List Node) : Option ℕ → List ℕ → Type 0 where
  end : Chain ns none []
  link :
      {c : ℕ} {cs : List ℕ} → Chain ns (node_at ns c).next_sibling cs → Chain ns (some c) (c ∷ cs)

-- The first of the nodes that has the name.
unfoldable pub find_name : List Node → List ℕ → List ℕ → Option ℕ
find_name ns name [] = none
find_name ns name (c ∷ cs) =
    if same_name (node_at ns c).name name then some c else find_name ns name cs

pub walk-find_name :
    (ns : List Node) (name : List ℕ) (fuel : ℕ) {o : Option ℕ} {cs : List ℕ}
    → Chain ns o cs
    → length cs ≤ fuel
    → walk ns name fuel o ≡ find_name ns name cs
unfolding walk find_name
walk-find_name ns name fuel end h = refl
walk-find_name ns name zero (link t) h = absurd (omega arith)
walk-find_name ns name (suc fuel) (link {c} {cs} t) h =
    ground (arith, walk-find_name ns name fuel t)

-- A link leads to a later node.
abbrev pub From : List Node → ℕ → Option ℕ → Type 0
From ns i none = Unit
From ns i (some c) = (i < c) × (c < length ns)

From-next :
    (ns : List Node) (s : IsStore ns) (c : ℕ)
    → c < length ns
    → From ns c (node_at ns c).next_sibling
From-next ns s c h = go (node_at ns c).next_sibling refl
  where
    go : (o : Option ℕ) → (node_at ns c).next_sibling ≡ o → From ns c o
    go none e = tt
    go (some n) e = let (up, inside, par) = (s c h).sibling_up n e in (up, inside)

Chain-short :
    (ns : List Node) {o : Option ℕ} {cs : List ℕ} → Chain ns o cs → length cs ≤ 0 → o ≡ none
Chain-short ns end h = refl
Chain-short ns (link t) h = absurd (omega arith)

pub Chain-empty : (ns : List Node) {o : Option ℕ} {cs : List ℕ} → Chain ns o cs → o ≡ none → cs ≡ []
Chain-empty ns end h = refl
Chain-empty ns (link t) h = cc

-- A link has one chain.
pub Chain-unique :
    (ns : List Node) {o : Option ℕ} {cs ds : List ℕ} → Chain ns o cs → Chain ns o ds → cs ≡ ds
Chain-unique ns end end = refl
Chain-unique ns (link {c} t) (link u) = ap (λ xs. c ∷ xs) (Chain-unique ns t u)

module _ (ns : List Node) (s : IsStore ns) where
  -- With fuel for the nodes behind, every link has its chain.
  pub Chain-of :
      (fuel i : ℕ) (o : Option ℕ)
      → From ns i o
      → length ns ≤ suc i + fuel
      → (cs : List ℕ) × Chain ns o cs × (length cs ≤ fuel)
  Chain-of fuel i none h b = ([], end, omega arith)
  Chain-of zero i (some c) h b = absurd (omega arith)
  Chain-of (suc fuel) i (some c) h b =
      let (cs, t, le) =
        Chain-of fuel c (node_at ns c).next_sibling (From-next ns s c h.1) (omega arith) in
      (c ∷ cs, link t, omega arith)

  -- The last of the siblings from `c` on.
  pub record IsLast (c l : ℕ) : Type 0 where
    pub ge : c ≤ l
    pub inside : l < length ns
    pub par : (node_at ns l).parent ≡ (node_at ns c).parent
    pub stop : (node_at ns l).next_sibling ≡ none

  pub last_sibling-IsLast :
      (fuel : ℕ) {c : ℕ} {cs : List ℕ}
      → Chain ns (some c) cs
      → c < length ns
      → length cs ≤ suc fuel
      → IsLast c (last_sibling ns fuel c)
  unfolding last_sibling
  last_sibling-IsLast zero (link {c} t) h b = record {
    ge = omega arith;
    inside = h;
    par = refl;
    stop = Chain-short ns t (omega arith);
  }
  last_sibling-IsLast (suc fuel) (link {c} {cs} t) h b =
      elim (Option-cases (node_at ns c).next_sibling) [
        | inl e ↦
            rw (e, last_sibling) (record { ge = omega arith; inside = h; par = refl; stop = e })
        | inr (n, e) ↦
            let (up, inside, par) = (s c h).sibling_up n e in
            let r =
              last_sibling-IsLast fuel (subst (λ o. Chain ns o cs) e t) inside (omega arith) in
            rw (e, last_sibling)
              (record {
                ge = omega (arith, r.ge);
                inside = r.inside;
                par = r.par ∙ par;
                stop = r.stop;
              })
      ]

  -- Every node of a chain has the parent that the first has.
  pub Chain-All :
      (q : Option ℕ) {o : Option ℕ} {cs : List ℕ}
      → Chain ns o cs
      → ((c : ℕ) → o ≡ some c → (c < length ns) × ((node_at ns c).parent ≡ q))
      → All (λ d. (d < length ns) × ((node_at ns d).parent ≡ q)) cs
  Chain-All q end h = tt
  Chain-All q (link {c} t) h =
      let (lt, par) = h c refl in
      (
        (lt, par),
        Chain-All q t
            λ d e. let (up, inside, same) = (s c lt).sibling_up d e in (inside, same ∙ par),
      )

module _ (ns ns' : List Node) (l new : ℕ)
    (agree : (j : ℕ)
      → j < length ns
      → l ≢ j
      → (node_at ns' j).next_sibling ≡ (node_at ns j).next_sibling) where
  -- A chain that does not meet `l` stays.
  pub Chain-keep :
      {o : Option ℕ} {cs : List ℕ}
      → Chain ns o cs
      → All (λ d. (d < length ns) × (l ≢ d)) cs
      → Chain ns' o cs
  Chain-keep end h = end
  Chain-keep (link {c} {cs} t) h =
      link (subst (λ o. Chain ns' o cs) (sym (agree c h.0.0 h.0.1)) (Chain-keep t h.1))

  module _ (s : IsStore ns) (at_l : (node_at ns' l).next_sibling ≡ some new)
      (at_new : (node_at ns' new).next_sibling ≡ none) where
    extend-end :
        {c : ℕ} {cs : List ℕ}
        → Chain ns (node_at ns c).next_sibling cs
        → (node_at ns c).next_sibling ≡ none
        → l ≡ c
        → Chain ns' (some c) (c ∷ (cs ++ (new ∷ [])))
    extend-end {c} t z e =
        let next : (node_at ns' c).next_sibling ≡ some new =
          subst (λ d. (node_at ns' d).next_sibling ≡ some new) e at_l in
        let last_link : Chain ns' (some new) (new ∷ []) =
          link (subst (λ o. Chain ns' o []) (sym at_new) end) in
        subst (λ xs. Chain ns' (some c) (c ∷ (xs ++ (new ∷ [])))) (sym (Chain-empty ns t z))
          (link (subst (λ o. Chain ns' o (new ∷ [])) (sym next) last_link))

    -- A new node behind the last sibling is the last of the chain.
    pub Chain-extend :
        (fuel : ℕ) {c : ℕ} {cs : List ℕ}
        → Chain ns (some c) cs
        → c < length ns
        → length cs ≤ suc fuel
        → l ≡ last_sibling ns fuel c
        → Chain ns' (some c) (cs ++ (new ∷ []))
    unfolding last_sibling
    Chain-extend zero (link t) h b e = extend-end t (Chain-short ns t (omega arith)) e
    Chain-extend (suc fuel) (link {c} {cs} t) h b e =
        elim (Option-cases (node_at ns c).next_sibling) [
          | inl z ↦ extend-end t z (rw (z, last_sibling) at e)
          | inr (n, z) ↦
              let t' = subst (λ o. Chain ns o cs) z t in
              let e' : l ≡ last_sibling ns fuel n = rw (z, last_sibling) at e in
              let (up, inside, par) = (s c h).sibling_up n z in
              let far : l ≢ c =
                omega (arith, (last_sibling-IsLast ns s fuel t' inside (omega arith)).ge) in
              link (
                subst (λ o. Chain ns' o (cs ++ (new ∷ []))) (sym (agree c h far ∙ z))
                  (Chain-extend fuel t' inside (omega arith) e'))
        ]

last_sibling-stop :
    (ns : List Node) (fuel c : ℕ) → (node_at ns c).next_sibling ≡ none → last_sibling ns fuel c ≡ c
unfolding last_sibling
last_sibling-stop ns zero c e = refl
last_sibling-stop ns (suc fuel) c e = rw (e, last_sibling)

last_sibling-next :
    (ns : List Node) (fuel c n : ℕ)
    → (node_at ns c).next_sibling ≡ some n
    → last_sibling ns (suc fuel) c ≡ last_sibling ns fuel n
unfolding last_sibling
last_sibling-next ns fuel c n e = rw (e, last_sibling)

-- The last sibling does not depend on the fuel, once that is enough, nor on nodes behind.
pub last_sibling-agree :
    (ns ns' : List Node)
    → IsStore ns
    → ((j : ℕ) → j < length ns → (node_at ns' j).next_sibling ≡ (node_at ns j).next_sibling)
    → (fuel more : ℕ) {c : ℕ} {cs : List ℕ} → Chain ns (some c) cs
    → c < length ns
    → length cs ≤ suc fuel
    → last_sibling ns' (fuel + more) c ≡ last_sibling ns fuel c
last_sibling-agree ns ns' s agree zero more (link {c} t) h b =
    let e = Chain-short ns t (omega arith) in
    last_sibling-stop ns' (0 + more) c (agree c h ∙ e) ∙ sym (last_sibling-stop ns 0 c e)
last_sibling-agree ns ns' s agree (suc fuel) more (link {c} {cs} t) h b =
    elim (Option-cases (node_at ns c).next_sibling) [
      | inl e ↦
          last_sibling-stop ns' (suc fuel + more) c (agree c h ∙ e)
          ∙ sym (last_sibling-stop ns (suc fuel) c e)
      | inr (n, e) ↦
          let (up, inside, par) = (s c h).sibling_up n e in
          let shift : suc fuel + more ≡ suc (fuel + more) = omega arith in
          ap (λ f. last_sibling ns' f c) shift
          ∙ last_sibling-next ns' (fuel + more) c n (agree c h ∙ e)
          ∙ last_sibling-agree ns ns' s agree fuel more (subst (λ o. Chain ns o cs) e t) inside
              (omega arith)
          ∙ sym (last_sibling-next ns fuel c n e)
    ]
