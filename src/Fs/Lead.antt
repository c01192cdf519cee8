-- ===== src/Fs/Lead.antt =====
-- Paths of src/fs/filesystem.c as steps in a tree: what fs_find is meant to return.
use hz_os.Base.{
  ℕ, ◌<◌, ◌≡◌, ◌≢◌, Bool, true, false, Option, none, some, List, [], ◌∷◌, arith, refl, ap, ap₂, sym,
  subst, length, Bool-cases, Option-cases, inl, inr,
}
use hz_os.Fs.{
  Node, NodeType, node_at, same_name, find_in_dir, is_dir, file, dir, is_dot, is_dot_dot, step,
}
use hz_os.Fs.Store.{IsStore}
use hz_os.Fs.Chain.{find_name}
use hz_os.Fs.Make.{Lists}
use hz_os.Fs.Find.{resolve, Lists-of, find_in_dir-find_name, step-in}

-- The first of some nodes that has a name.
pub data Named (ns : List Node) (name : List ℕ) : List ℕ → Option ℕ → Type 0 where
  nobody : Named ns name [] none
  this : (c : ℕ) (cs : List ℕ) → (node_at ns c).name ≡ name → Named ns name (c ∷ cs) (some c)
  later :
      (c : ℕ) {cs : List ℕ} {r : Option ℕ}
      → (node_at ns c).name ≢ name
      → Named ns name cs r
      → Named ns name (c ∷ cs) r

-- One segment of a path, from the node `cur`.
pub data Move (ns : List Node) (cur : ℕ) (seg : List ℕ) : Option ℕ → Type 0 where
  up :
      (p : ℕ) → seg ≡ b'.' ∷ b'.' ∷ [] → (node_at ns cur).parent ≡ some p → Move ns cur seg (some p)
  top : seg ≡ b'.' ∷ b'.' ∷ [] → (node_at ns cur).parent ≡ none → Move ns cur seg (some cur)
  stay : seg ≡ b'.' ∷ [] → Move ns cur seg (some cur)
  child :
      (cs : List ℕ) {r : Option ℕ}
      → seg ≢ b'.' ∷ b'.' ∷ []
      → seg ≢ b'.' ∷ []
      → (node_at ns cur).kind ≡ dir
      → Lists ns cur cs
      → Named ns seg cs r
      → Move ns cur seg r
  no_directory :
      seg ≢ b'.' ∷ b'.' ∷ [] → seg ≢ b'.' ∷ [] → (node_at ns cur).kind ≡ file → Move ns cur seg none

-- The segments of a path in turn.
pub data Leads (ns : List Node) : ℕ → List (List ℕ) → Option ℕ → Type 0 where
  here : (cur : ℕ) → Leads ns cur [] (some cur)
  next :
      {cur n : ℕ} {seg : List ℕ} {more : List (List ℕ)} {r : Option ℕ}
      → Move ns cur seg (some n)
      → Leads ns n more r
      → Leads ns cur (seg ∷ more) r
  lost :
      {cur : ℕ} {seg : List ℕ} (more : List (List ℕ))
      → Move ns cur seg none
      → Leads ns cur (seg ∷ more) none

eq_of_same_name : (a b : List ℕ) → same_name a b ≡ true → a ≡ b
unfolding same_name
eq_of_same_name [] [] e = refl
eq_of_same_name [] (b ∷ bs) e = absurd (cc)
eq_of_same_name (a ∷ as') [] e = absurd (cc)
eq_of_same_name (a ∷ as') (b ∷ bs) e =
    let first : a ≡ b = ground (arith, e) in
    let rest : same_name as' bs ≡ true = ground (arith, e) in
    ap₂ (λ x xs. x ∷ xs) first (eq_of_same_name as' bs rest)

same_name_self : (n : List ℕ) → same_name n n ≡ true
unfolding same_name
same_name_self [] = refl
same_name_self (c ∷ cs) = ground (arith, same_name_self cs)

ne_of_same_name : (a b : List ℕ) → same_name a b ≡ false → a ≢ b
ne_of_same_name a b e same =
    let yes_it : same_name a b ≡ true = subst (λ x. same_name a x ≡ true) same (same_name_self a) in
    ground (arith, e, yes_it)

find_name-Named : (ns : List Node) (name cs : List ℕ) → Named ns name cs (find_name ns name cs)
unfolding find_name
find_name-Named ns name [] = nobody
find_name-Named ns name (c ∷ cs) = elim (Bool-cases (same_name (node_at ns c).name name)) [
  | inl e ↦ rw e (this c cs (eq_of_same_name (node_at ns c).name name e))
  | inr e ↦ rw e (later c (ne_of_same_name (node_at ns c).name name e) (find_name-Named ns name cs))
]

eq_of_is_dot_dot : (seg : List ℕ) → is_dot_dot seg ≡ true → seg ≡ b'.' ∷ b'.' ∷ []
eq_of_is_dot_dot [] e = absurd (cc)
eq_of_is_dot_dot (a ∷ []) e = absurd (cc)
eq_of_is_dot_dot (a ∷ b ∷ []) e =
    let first : a ≡ b'.' = ground (arith, e) in
    let second : b ≡ b'.' = ground (arith, e) in ap₂ (λ x y. x ∷ y ∷ []) first second
eq_of_is_dot_dot (a ∷ b ∷ c ∷ cs) e = absurd (cc)

eq_of_is_dot : (seg : List ℕ) → is_dot seg ≡ true → seg ≡ b'.' ∷ []
eq_of_is_dot [] e = absurd (cc)
eq_of_is_dot (a ∷ []) e = let first : a ≡ b'.' = ground (arith, e) in ap (λ x. x ∷ []) first
eq_of_is_dot (a ∷ b ∷ cs) e = absurd (cc)

no_match : (f : List ℕ → Bool) (a b : List ℕ) → f b ≡ true → f a ≡ false → a ≢ b
no_match f a b t e same =
    let no_it : f b ≡ false = subst (λ x. f x ≡ false) same e in ground (arith, t, no_it)

is_dir-dir : (k : NodeType) → is_dir k ≡ true → k ≡ dir
is_dir-dir dir e = refl
is_dir-dir file e = absurd (cc)

is_dir-file : (k : NodeType) → is_dir k ≡ false → k ≡ file
is_dir-file dir e = absurd (cc)
is_dir-file file e = refl

module _ (ns : List Node) (s : IsStore ns) where
  -- One segment that is neither "." nor "..".
  child-Move :
      (cur : ℕ) (seg : List ℕ)
      → cur < length ns
      → is_dot_dot seg ≡ false
      → is_dot seg ≡ false
      → Move ns cur seg (find_in_dir ns cur seg)
  child-Move cur seg h not_up not_stay =
      let no_up = no_match is_dot_dot seg (b'.' ∷ b'.' ∷ []) refl not_up in
      let no_stay = no_match is_dot seg (b'.' ∷ []) refl not_stay in
      elim (Bool-cases (is_dir (node_at ns cur).kind)) [
        | inl k ↦
            (let (cs, t, le) = Lists-of ns s cur h in
              subst (Move ns cur seg) (sym (find_in_dir-find_name ns s cur seg cs h k t)) (
                child cs no_up no_stay (is_dir-dir (node_at ns cur).kind k) t
                  (find_name-Named ns seg cs)))
        | inr k ↦
            unfold find_in_dir in
            (rw k (no_directory no_up no_stay (is_dir-file (node_at ns cur).kind k)))
      ]

  step-Move : (cur : ℕ) (seg : List ℕ) → cur < length ns → Move ns cur seg (step ns cur seg)
  unfolding step
  step-Move cur seg h = elim (Bool-cases (is_dot_dot seg)) [
    | inl e ↦ elim (Option-cases (node_at ns cur).parent) [
      | inl z ↦ rw (e, z) (top (eq_of_is_dot_dot seg e) z)
      | inr (p, z) ↦ rw (e, z) (up p (eq_of_is_dot_dot seg e) z)
    ]
    | inr e ↦ elim (Bool-cases (is_dot seg)) [
      | inl f ↦ rw (e, f) (stay (eq_of_is_dot seg f))
      | inr f ↦ rw (e, f) (child-Move cur seg h e f)
    ]
  ]

  pub resolve-Leads :
      (cur : ℕ) (segs : List (List ℕ)) → cur < length ns → Leads ns cur segs (resolve ns cur segs)
  unfolding resolve
  resolve-Leads cur [] h = here cur
  resolve-Leads cur (seg ∷ more) h =
      let moved = step-Move cur seg h in
      elim (Option-cases (step ns cur seg)) [
        | inl z ↦ rw (z, resolve) (lost more (subst (Move ns cur seg) z moved))
        | inr (n, z) ↦
            rw (z, resolve)
              (next (subst (Move ns cur seg) z moved)
                (resolve-Leads n more (step-in ns s cur seg h z)))
      ]
