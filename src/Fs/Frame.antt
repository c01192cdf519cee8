-- ===== src/Fs/Frame.antt =====
-- What fs_find of src/fs/filesystem.c finds after a node was added to a directory.
use hz_os.Base.{
  ℕ, ◌<◌, ◌≡◌, ◌≢◌, inl, inr, Bool, true, Option, none, some, List, [], ◌∷◌, ◌++◌, arith, refl, ap,
  sym, ◌∙◌, subst, length, ℕ_discrete, All, All-mono, if◌then◌else◌, Bool-cases, Option-cases,
}
use hz_os.Fs.{Node, node_at, same_name, find_in_dir, is_dir, is_dot, is_dot_dot, step}
use hz_os.Fs.Store.{IsStore}
use hz_os.Fs.Chain.{find_name}
use hz_os.Fs.Make.{Lists, Added}
use hz_os.Fs.Find.{resolve, Lists-of, find_in_dir-find_name, step-in, own_nodes}

-- What was found, or else the node `x` if it has the name.
abbrev pub or_new : Option ℕ → Bool → ℕ → Option ℕ
or_new (some c) b x = some c
or_new none b x = if b then some x else none

find_name-append :
    (ns : List Node) (name cs : List ℕ) (x : ℕ)
    → find_name ns name (cs ++ (x ∷ []))
      ≡ or_new (find_name ns name cs) (same_name (node_at ns x).name name) x
unfolding find_name
find_name-append ns name [] x = refl
find_name-append ns name (c ∷ cs) x = elim (Bool-cases (same_name (node_at ns c).name name)) [
  | inl e ↦ rw (e, find_name, or_new)
  | inr e ↦ rw (e, find_name) (find_name-append ns name cs x)
]

find_name-same :
    (ns ns' : List Node) (name cs : List ℕ)
    → All (λ i. (node_at ns' i).name ≡ (node_at ns i).name) cs
    → find_name ns' name cs ≡ find_name ns name cs
unfolding find_name
find_name-same ns ns' name [] h = refl
find_name-same ns ns' name (c ∷ cs) h = rw (h.0, find_name-same ns ns' name cs h.1)

module _ (ns : List Node) (s : IsStore ns) (node : Node) (parent : ℕ) (inside : parent < length ns)
    (ns' : List Node) (a : Added ns node parent ns') where
  names-kept :
      (d : ℕ) {cs : List ℕ}
      → d < length ns
      → Lists ns d cs
      → All (λ i. (node_at ns' i).name ≡ (node_at ns i).name) cs
  names-kept d {cs} h t = All-mono cs (λ i p. (a.old i p.0).name) (own_nodes ns s d h t)

  still_dir : (d : ℕ) → d < length ns → is_dir (node_at ns' d).kind ≡ is_dir (node_at ns d).kind
  still_dir d h = ap is_dir (a.old d h).kind

  -- Another directory.
  pub find_other :
      (d : ℕ) (name : List ℕ)
      → d < length ns
      → parent ≢ d
      → find_in_dir ns' d name ≡ find_in_dir ns d name
  find_other d name h ne = elim (Bool-cases (is_dir (node_at ns d).kind)) [
    | inl k ↦
        let (cs, t, le) = Lists-of ns s d h in
        find_in_dir-find_name ns' a.store d name cs (omega (arith, a.count)) (still_dir d h ∙ k)
          (a.others d cs h ne t)
        ∙ find_name-same ns ns' name cs (names-kept d h t)
        ∙ sym (find_in_dir-find_name ns s d name cs h k t)
    | inr k ↦ let k' = still_dir d h ∙ k in unfold find_in_dir in (rw (k, k'))
  ]

  -- The directory itself.
  pub find_parent :
      (name : List ℕ)
      → is_dir (node_at ns parent).kind ≡ true
      → find_in_dir ns' parent name
        ≡ or_new (find_in_dir ns parent name) (same_name node.name name) (length ns)
  find_parent name k =
      let (cs, t, le) = Lists-of ns s parent inside in
      find_in_dir-find_name ns' a.store parent name (cs ++ (length ns ∷ []))
        (omega (arith, a.count)) (still_dir parent inside ∙ k) (a.listed cs t)
      ∙ find_name-append ns' name cs (length ns)
      ∙ ap (λ (n : Node). or_new (find_name ns' name cs) (same_name n.name name) (length ns)) a.new
      ∙ ap (λ o. or_new o (same_name node.name name) (length ns))
          (find_name-same ns ns' name cs (names-kept parent inside t)
            ∙ sym (find_in_dir-find_name ns s parent name cs inside k t))

  find_in_dir-kept :
      (d : ℕ) (name : List ℕ) {r : ℕ}
      → d < length ns
      → find_in_dir ns d name ≡ some r
      → find_in_dir ns' d name ≡ some r
  find_in_dir-kept d name {r} h e = elim (ℕ_discrete parent d) [
    | no ne ↦ find_other d name h ne ∙ e
    | yes same ↦ elim (Bool-cases (is_dir (node_at ns d).kind)) [
      | inr k ↦ absurd (unfold find_in_dir in ground arith)
      | inl k ↦
          let k' = subst (λ i. is_dir (node_at ns i).kind ≡ true) (sym same) k in
          let e' = subst (λ i. find_in_dir ns i name ≡ some r) (sym same) e in
          subst (λ i. find_in_dir ns' i name ≡ some r) same
            (find_parent name k' ∙ ap (λ o. or_new o (same_name node.name name) (length ns)) e')
    ]
  ]

  -- A step that succeeds leads to the same node.
  step-kept :
      (cur : ℕ) (seg : List ℕ) {r : ℕ}
      → cur < length ns
      → step ns cur seg ≡ some r
      → step ns' cur seg ≡ some r
  unfolding step
  step-kept cur seg h e = elim (Bool-cases (is_dot_dot seg)) [
    | inl dd ↦ ground (arith, (a.old cur h).parent)
    | inr nd ↦ elim (Bool-cases (is_dot seg)) [
      | inl dot ↦ ground arith
      | inr not_dot ↦ rw (nd, not_dot) (find_in_dir-kept cur seg h (rw (nd, not_dot) at e))
    ]
  ]

  pub resolve-kept :
      (cur : ℕ) (segs : List (List ℕ)) {r : ℕ}
      → cur < length ns
      → resolve ns cur segs ≡ some r
      → (resolve ns' cur segs ≡ some r) × (r < length ns)
  unfolding resolve
  resolve-kept cur [] h e = (e, ground arith)
  resolve-kept cur (seg ∷ segs) h e = elim (Option-cases (step ns cur seg)) [
    | inl z ↦ absurd (ground arith)
    | inr (n, z) ↦
        rw (step-kept cur seg h z, resolve)
          (resolve-kept n segs (step-in ns s cur seg h z) (rw (z, resolve) at e))
  ]
