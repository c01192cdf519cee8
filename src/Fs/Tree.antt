-- ===== src/Fs/Tree.antt =====
-- fs_find, fs_mkdir and fs_mkfile of src/fs/filesystem.c as a whole.
use hz_os.Fs.Lead.{Leads, resolve-Leads}
use hz_os.Base.{
  ℕ, zero, suc, ◌<◌, ◌≡◌, inl, inr, Bool, true, false, Option, none, some, List, [], ◌∷◌, arith,
  refl, ap, sym, ◌∙◌, length, if◌then◌else◌, ◌==◌, Bool-cases, Option-cases, take, subst,
}
use hz_os.Fs.{
  Node, NodeType, node_at, find_in_dir, is_dir, find_loop, create_node, Fs, fs_find, last_slash,
  get_parent_and_name, attach, make_at, make, split_at,
}
use hz_os.Fs.Store.{IsStore, SameNode}
use hz_os.Fs.Make.{Added, add_child-Added}
use hz_os.Fs.Find.{segments, resolve, resolve-in, find_loop-resolve}
use hz_os.Fs.Frame.{resolve-kept}

pub record IsFs (fs : Fs) : Type 0 where
  pub store : IsStore fs.nodes
  pub root_in : fs.root < length fs.nodes
  pub cwd_in : fs.cwd < length fs.nodes
  pub root_dir : is_dir (node_at fs.nodes fs.root).kind ≡ true
  pub cwd_dir : is_dir (node_at fs.nodes fs.cwd).kind ≡ true
  pub root_top : (node_at fs.nodes fs.root).parent ≡ none

-- Where the resolution of a path starts.
unfoldable pub start : Fs → List ℕ → ℕ
start fs [] = fs.cwd
start fs (c ∷ cs) = if c == b'/' then fs.root else fs.cwd

start-root : (fs : Fs) (c : ℕ) (cs : List ℕ) → (c == b'/') ≡ true → start fs (c ∷ cs) ≡ fs.root
unfolding start
start-root fs c cs e = rw e

start-cwd : (fs : Fs) (c : ℕ) (cs : List ℕ) → (c == b'/') ≡ false → start fs (c ∷ cs) ≡ fs.cwd
unfolding start
start-cwd fs c cs e = rw e

fs_find-root :
    (fs : Fs) (c : ℕ) (cs : List ℕ)
    → (c == b'/') ≡ true
    → fs_find fs (c ∷ cs) ≡ find_loop fs.nodes fs.root [] (c ∷ cs)
unfolding fs_find find_loop
fs_find-root fs c cs e = rw (e, fs_find, find_loop)

fs_find-cwd :
    (fs : Fs) (c : ℕ) (cs : List ℕ)
    → (c == b'/') ≡ false
    → fs_find fs (c ∷ cs) ≡ find_loop fs.nodes fs.cwd [] (c ∷ cs)
unfolding fs_find
fs_find-cwd fs c cs e = rw (e, fs_find)

fs_find-loop :
    (fs : Fs) (c : ℕ) (cs : List ℕ)
    → fs_find fs (c ∷ cs) ≡ find_loop fs.nodes (start fs (c ∷ cs)) [] (c ∷ cs)
fs_find-loop fs c cs = elim (Bool-cases (c == b'/')) [
  | inl e ↦
      fs_find-root fs c cs e
      ∙ ap (λ n. find_loop fs.nodes n [] (c ∷ cs)) (sym (start-root fs c cs e))
  | inr e ↦
      fs_find-cwd fs c cs e ∙ ap (λ n. find_loop fs.nodes n [] (c ∷ cs)) (sym (start-cwd fs c cs e))
]

pub fs_find-resolve :
    (fs : Fs) (path : List ℕ)
    → fs_find fs path ≡ resolve fs.nodes (start fs path) (segments [] path)
unfolding start segments resolve
fs_find-resolve fs [] = unfold fs_find in refl
fs_find-resolve fs (c ∷ cs) =
    fs_find-loop fs c cs ∙ find_loop-resolve fs.nodes (start fs (c ∷ cs)) [] (c ∷ cs)

start-in : {fs : Fs} → IsFs fs → (path : List ℕ) → start fs path < length fs.nodes
unfolding start
start-in v [] = v.cwd_in
start-in v (c ∷ cs) = ground (arith, v.root_in, v.cwd_in)

-- fs_find on a well-formed file system takes the segments of the path one by one, from the root if
-- the path begins with a slash and from the current directory if not: ".." goes to the parent and
-- stays where there is none, "." stays, and any other segment leads to the first child that has it as
-- its name. The result is NULL exactly where such a segment stands at a file or names no child.
-- Slashes in a row and at the end count as one and as none.
pub fs_find-Leads :
    (fs : Fs) (path : List ℕ)
    → IsFs fs
    → Leads fs.nodes (start fs path) (segments [] path) (fs_find fs path)
fs_find-Leads fs path v =
    subst (Leads fs.nodes (start fs path) (segments [] path)) (sym (fs_find-resolve fs path))
      (resolve-Leads fs.nodes v.store (start fs path) (segments [] path) (start-in v path))

-- What making a node does to the file system, if it does anything.
pub data Made (fs : Fs) (parent : Option ℕ) (name : List ℕ) (kind : NodeType)
    : Bool × Fs → Type 0 where
  refused : Made fs parent name kind (false, fs)
  added :
      (p : ℕ) {ns : List Node}
      → parent ≡ some p
      → p < length fs.nodes
      → is_dir (node_at fs.nodes p).kind ≡ true
      → find_in_dir fs.nodes p name ≡ none
      → Added fs.nodes (create_node name kind (some p)) p ns
      → Made fs parent name kind (true, record fs { nodes = ns })

module _ (fs : Fs) (v : IsFs fs) where
  pub fs_find-in : (path : List ℕ) {r : ℕ} → fs_find fs path ≡ some r → r < length fs.nodes
  fs_find-in path e =
      resolve-in fs.nodes v.store (start fs path) (segments [] path) (start-in v path)
        (sym (fs_find-resolve fs path) ∙ e)

  pub make_at-Made :
      (parent : Option ℕ) (name : List ℕ) (kind : NodeType)
      → ((p : ℕ) → parent ≡ some p → p < length fs.nodes)
      → Made fs parent name kind (make_at fs parent name kind)
  unfolding make_at
  make_at-Made none name kind h = refused
  make_at-Made (some p) name kind h = elim (Bool-cases (is_dir (node_at fs.nodes p).kind)) [
    | inr k ↦ rw (k, make_at) refused
    | inl k ↦ elim (Option-cases (find_in_dir fs.nodes p name)) [
      | inr (c, e) ↦ rw (k, make_at, e) refused
      | inl e ↦
          rw (k, make_at, e)
            (unfold attach in
              (added p refl (h p refl) k e
                (add_child-Added fs.nodes v.store name kind p (h p refl))))
    ]
  ]

  split_at-in :
      (path : List ℕ) (o : Option ℕ) (p : ℕ) → (split_at fs path o).0 ≡ some p → p < length fs.nodes
  unfolding split_at
  split_at-in path none p e = ground (arith, v.cwd_in)
  split_at-in path (some zero) p e = ground (arith, v.root_in)
  split_at-in path (some (suc i)) p e = fs_find-in (take (suc i) path) e

  pub make-Made :
      (path : List ℕ) (kind : NodeType)
      → Made fs
          (get_parent_and_name fs path).0
          (get_parent_and_name fs path).1
          kind
          (make fs path kind)
  unfolding make get_parent_and_name
  make-Made path kind = make_at-Made _ _ kind (split_at-in path (last_slash path 0 none))

module _ (fs : Fs) (v : IsFs fs) where
  Made-IsFs :
      {parent : Option ℕ} {name : List ℕ} {kind : NodeType} {out : Bool × Fs}
      → Made fs parent name kind out
      → IsFs out.1
  Made-IsFs refused = v
  Made-IsFs (added p e inside k new a) = record {
    store = a.store;
    root_in = omega (arith, v.root_in, a.count);
    cwd_in = omega (arith, v.cwd_in, a.count);
    root_dir = ap is_dir (a.old fs.root v.root_in).kind ∙ v.root_dir;
    cwd_dir = ap is_dir (a.old fs.cwd v.cwd_in).kind ∙ v.cwd_dir;
    root_top = (a.old fs.root v.root_in).parent ∙ v.root_top;
  }

  Made-kept :
      {parent : Option ℕ} {name : List ℕ} {kind : NodeType} {out : Bool × Fs}
      → Made fs parent name kind out
      → (path : List ℕ) {r : ℕ} → fs_find fs path ≡ some r
      → (fs_find out.1 path ≡ some r) × SameNode (node_at fs.nodes r) (node_at out.1.nodes r)
  Made-kept refused path e =
      (e, record { name = refl; kind = refl; parent = refl; content = refl; content_len = refl })
  Made-kept {name} {kind} (added p {ns} e' inside k new a) path {r} e =
      let (found, lt) =
        resolve-kept fs.nodes v.store (create_node name kind (some p)) p inside ns a (start fs path)
          (segments [] path) (start-in v path) (sym (fs_find-resolve fs path) ∙ e) in
      (fs_find-resolve (record fs { nodes = ns }) path ∙ same_start path ∙ found, a.old r lt)
    where
      same_start :
          (q : List ℕ)
          → resolve ns (start (record fs { nodes = ns }) q) (segments [] q)
            ≡ resolve ns (start fs q) (segments [] q)
      same_start [] = unfold start in refl
      same_start (c ∷ cs) = unfold start in refl

  -- On a well-formed file system, fs_mkdir and fs_mkfile leave a well-formed one, whether they
  -- succeed or not.
  pub make-IsFs : (path : List ℕ) (kind : NodeType) → IsFs (make fs path kind).1
  make-IsFs path kind = Made-IsFs (make-Made fs v path kind)

  -- Every path that fs_find resolves before fs_mkdir or fs_mkfile of any path it resolves to the
  -- same node afterwards, and that node has the name, the type, the parent and the content it had.
  pub make-kept :
      (made : List ℕ) (kind : NodeType) (path : List ℕ) {r : ℕ}
      → fs_find fs path ≡ some r
      → (fs_find (make fs made kind).1 path ≡ some r)
        × SameNode (node_at fs.nodes r) (node_at (make fs made kind).1.nodes r)
  make-kept made kind path e = Made-kept (make-Made fs v made kind) path e
