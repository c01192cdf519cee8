-- ===== src/Fs/Find.antt =====
-- fs_find of src/fs/filesystem.c against the resolution of a path segment by segment, and what
-- adding a node changes in it.
use hz_os.Base.{
  ℕ, ◌≤◌, ◌<◌, ◌≡◌, inl, inr, true, false, Option, none, some, List, [], ◌∷◌, ◌++◌, arith, refl,
  sym, ◌∙◌, subst, length, All, ◌==◌, Bool-cases, Option-cases,
}
use hz_os.Fs.{Node, node_at, same_name, find_in_dir, is_dir, is_dot, is_dot_dot, step, find_loop}
use hz_os.Fs.Store.{IsStore}
use hz_os.Fs.Chain.{Chain, find_name, walk-find_name, Chain-of, Chain-All, Chain-unique}
use hz_os.Fs.Make.{Lists}

-- The segments of a path, with `seg` in front of the first: what stands between slashes, less what
-- is empty.
abbrev pub flush : List ℕ → List (List ℕ) → List (List ℕ)
flush [] more = more
flush (s ∷ seg) more = (s ∷ seg) ∷ more

unfoldable pub segments : List ℕ → List ℕ → List (List ℕ)
segments seg [] = flush seg []
segments seg (c ∷ cs) = elim (c == b'/') [
  | true ↦ flush seg (segments [] cs)
  | false ↦ segments (seg ++ (c ∷ [])) cs
]

-- One step for each segment.
unfoldable pub resolve : List Node → ℕ → List (List ℕ) → Option ℕ
resolve ns cur [] = some cur
resolve ns cur (seg ∷ more) = elim (step ns cur seg) [ none ↦ none | some n ↦ resolve ns n more ]

pub resolve-one :
    (ns : List Node) (cur : ℕ) (seg : List ℕ) → resolve ns cur (seg ∷ []) ≡ step ns cur seg
unfolding resolve
resolve-one ns cur seg = elim (Option-cases (step ns cur seg)) [
  | inl e ↦ rw (e, resolve)
  | inr (n, e) ↦ rw (e, resolve)
]

-- The loop of fs_find takes the segments in turn; slashes in a row and at the end add nothing.
pub find_loop-resolve :
    (ns : List Node) (cur : ℕ) (seg path : List ℕ)
    → find_loop ns cur seg path ≡ resolve ns cur (segments seg path)
unfolding find_loop segments resolve
find_loop-resolve ns cur [] [] = refl
find_loop-resolve ns cur (s ∷ seg) [] = sym (resolve-one ns cur (s ∷ seg))
find_loop-resolve ns cur [] (c ∷ cs) = elim (Bool-cases (c == b'/')) [
  | inl e ↦ rw (e, find_loop, segments) (find_loop-resolve ns cur [] cs)
  | inr e ↦ rw (e, find_loop, segments) (find_loop-resolve ns cur (c ∷ []) cs)
]
find_loop-resolve ns cur (s ∷ seg) (c ∷ cs) = elim (Bool-cases (c == b'/')) [
  | inl e ↦ elim (Option-cases (step ns cur (s ∷ seg))) [
    | inl z ↦ rw (e, find_loop, segments, resolve, z)
    | inr (n, z) ↦ rw (e, find_loop, segments, resolve, z) (find_loop-resolve ns n [] cs)
  ]
  | inr e ↦ rw (e, find_loop, segments) (find_loop-resolve ns cur ((s ∷ seg) ++ (c ∷ [])) cs)
]

module _ (ns : List Node) (s : IsStore ns) where
  -- A directory lists some nodes, no more than there are.
  pub Lists-of : (d : ℕ) → d < length ns → (cs : List ℕ) × Lists ns d cs × (length cs ≤ length ns)
  Lists-of d h = go (node_at ns d).first_child refl
    where
      go :
          (o : Option ℕ)
          → (node_at ns d).first_child ≡ o
          → (cs : List ℕ) × Lists ns d cs × (length cs ≤ length ns)
      go none e =
          let (cs, t, le) = Chain-of ns s (length ns) d none tt (omega arith) in
          (cs, subst (λ o. Chain ns o cs) (sym e) t, le)
      go (some c) e =
          let (up, inside, par) = (s d h).child_up c e in
          let (cs, t, le) = Chain-of ns s (length ns) d (some c) (up, inside) (omega arith) in
          (cs, subst (λ o. Chain ns o cs) (sym e) t, le)

  pub find_in_dir-find_name :
      (d : ℕ) (name cs : List ℕ)
      → d < length ns
      → is_dir (node_at ns d).kind ≡ true
      → Lists ns d cs
      → find_in_dir ns d name ≡ find_name ns name cs
  unfolding find_in_dir
  find_in_dir-find_name d name cs h k t =
      let (ds, u, le) = Lists-of d h in
      let same = Chain-unique ns u t in
      rw k (walk-find_name ns name (length ns) t (subst (λ xs. length xs ≤ length ns) same le))

  pub own_nodes :
      (d : ℕ) {cs : List ℕ}
      → d < length ns
      → Lists ns d cs
      → All (λ i. (i < length ns) × ((node_at ns i).parent ≡ some d)) cs
  own_nodes d h t =
      Chain-All ns s (some d) t λ c e. let (up, lt, par) = (s d h).child_up c e in (lt, par)

  find_name-All {κ} :
      (P : ℕ → Type κ) (name cs : List ℕ) {r : ℕ} → All P cs → find_name ns name cs ≡ some r → P r
  unfolding find_name
  find_name-All P name [] h e = absurd (cc)
  find_name-All P name (c ∷ cs) h e = elim (Bool-cases (same_name (node_at ns c).name name)) [
    | inl z ↦ subst P (ground (arith, rw z at e)) h.0
    | inr z ↦ find_name-All P name cs h.1 (rw z at e)
  ]

  -- What is found in a directory is a node that has the directory as its parent.
  pub find_in_dir-child :
      (d : ℕ) (name : List ℕ) {r : ℕ}
      → d < length ns
      → find_in_dir ns d name ≡ some r
      → (r < length ns) × ((node_at ns r).parent ≡ some d)
  find_in_dir-child d name {r} h e = elim (Bool-cases (is_dir (node_at ns d).kind)) [
    | inl k ↦
        let (cs, t, le) = Lists-of d h in
        find_name-All (λ i. (i < length ns) × ((node_at ns i).parent ≡ some d)) name cs
          (own_nodes d h t) (sym (find_in_dir-find_name d name cs h k t) ∙ e)
    | inr k ↦ absurd (unfold find_in_dir in ground arith)
  ]

  pub step-in :
      (cur : ℕ) (seg : List ℕ) {r : ℕ} → cur < length ns → step ns cur seg ≡ some r → r < length ns
  unfolding step
  step-in cur seg {r} h e = elim (Bool-cases (is_dot_dot seg)) [
    | inl dd ↦ elim (Option-cases (node_at ns cur).parent) [
      | inl z ↦ ground arith
      | inr (p, z) ↦ ground (arith, (s cur h).parent_down p z)
    ]
    | inr nd ↦ elim (Bool-cases (is_dot seg)) [
      | inl dot ↦ ground arith
      | inr not_dot ↦ (find_in_dir-child cur seg h (rw (nd, not_dot) at e)).0
    ]
  ]

  pub resolve-in :
      (cur : ℕ) (segs : List (List ℕ)) {r : ℕ}
      → cur < length ns
      → resolve ns cur segs ≡ some r
      → r < length ns
  unfolding resolve
  resolve-in cur [] h e = ground arith
  resolve-in cur (seg ∷ segs) h e = elim (Option-cases (step ns cur seg)) [
    | inl z ↦ absurd (ground arith)
    | inr (n, z) ↦ resolve-in n segs (step-in cur seg h z) (rw (z, resolve) at e)
  ]
