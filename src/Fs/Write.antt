-- ===== src/Fs/Write.antt =====
-- fs_write_file of src/fs/filesystem.c.
use hz_os.Base.{
  ℕ, zero, suc, ◌<◌, ◌≡◌, ◌≢◌, inl, inr, Bool, true, false, Option, none, some, List, [], ◌∷◌,
  arith, refl, ap, sym, ◌∙◌, subst, length, ℕ_discrete, Option-cases, Bool-cases, modify,
  length-modify, get_or-modify_self, get_or-modify_ne,
}
use hz_os.Fs.{
  Node, node_at, null_node, find_in_dir, walk, is_dir, step, Fs, fs_find, write_node, fs_write_file,
  write_created, fs_mkfile, make, file,
}
use hz_os.Fs.Store.{IsStore}
use hz_os.Fs.Find.{segments, resolve}
use hz_os.Fs.Tree.{IsFs, start, fs_find-resolve, fs_find-in, make-IsFs}

-- The same tree, with other contents.
record SameTree (ns ns' : List Node) : Type 0 where
  count : length ns' ≡ length ns
  name : (i : ℕ) → (node_at ns' i).name ≡ (node_at ns i).name
  kind : (i : ℕ) → (node_at ns' i).kind ≡ (node_at ns i).kind
  first_child : (i : ℕ) → (node_at ns' i).first_child ≡ (node_at ns i).first_child
  next_sibling : (i : ℕ) → (node_at ns' i).next_sibling ≡ (node_at ns i).next_sibling
  parent : (i : ℕ) → (node_at ns' i).parent ≡ (node_at ns i).parent

module _ (ns ns' : List Node) (t : SameTree ns ns') where
  walk-same : (name : List ℕ) (fuel : ℕ) (o : Option ℕ) → walk ns' name fuel o ≡ walk ns name fuel o
  unfolding walk
  walk-same name fuel none = refl
  walk-same name zero (some c) = refl
  walk-same name (suc fuel) (some c) =
      ground (arith, t.name c, t.next_sibling c, walk-same name fuel (node_at ns c).next_sibling)

  find_in_dir-same : (d : ℕ) (name : List ℕ) → find_in_dir ns' d name ≡ find_in_dir ns d name
  unfolding find_in_dir
  find_in_dir-same d name = ground (
    arith,
    t.kind d,
    t.first_child d,
    t.count,
    walk-same name (length ns) (node_at ns d).first_child,
  )

  step-same : (cur : ℕ) (seg : List ℕ) → step ns' cur seg ≡ step ns cur seg
  unfolding step
  step-same cur seg = ground (arith, t.parent cur, find_in_dir-same cur seg)

  resolve-same : (cur : ℕ) (segs : List (List ℕ)) → resolve ns' cur segs ≡ resolve ns cur segs
  unfolding resolve
  resolve-same cur [] = refl
  resolve-same cur (seg ∷ segs) = elim (Option-cases (step ns cur seg)) [
    | inl z ↦ rw (step-same cur seg, resolve, z)
    | inr (n, z) ↦ rw (step-same cur seg, resolve, z) (resolve-same n segs)
  ]

  IsStore-same : IsStore ns → IsStore ns'
  IsStore-same s i h =
      let n = s i (omega (arith, t.count)) in
      record {
        child_up = λ c e.
            let (up, inside, par) = n.child_up c (sym (t.first_child i) ∙ e) in
            (up, omega (arith, t.count), t.parent c ∙ par);
        sibling_up = λ c e.
            let (up, inside, par) = n.sibling_up c (sym (t.next_sibling i) ∙ e) in
            (up, omega (arith, t.count), t.parent c ∙ par ∙ sym (t.parent i));
        parent_down = λ p e. n.parent_down p (sym (t.parent i) ∙ e);
        name_fits = rw (t.name i) n.name_fits;
      }

abbrev pub put_content : List ℕ → Node → Node
put_content bytes m = record m { content = some bytes; content_len = length bytes }

-- A field that the new content leaves alone.
field-put {κ} :
    {B : Type κ} (f : Node → B) (ns : List Node) (n : ℕ) (bytes : List ℕ)
    → n < length ns
    → ((m : Node) → f (put_content bytes m) ≡ f m)
    → (i : ℕ) → f (node_at (modify ns n (put_content bytes)) i) ≡ f (node_at ns i)
field-put f ns n bytes h same i = elim (ℕ_discrete n i) [
  | yes e ↦
      subst (λ j. f (node_at (modify ns n (put_content bytes)) j) ≡ f (node_at ns j)) e
        (ap f (get_or-modify_self ns n (put_content bytes) null_node h) ∙ same (node_at ns n))
  | no ne ↦ ap f (get_or-modify_ne ns n i (put_content bytes) null_node ne)
]

put-SameTree :
    (ns : List Node) (n : ℕ) (bytes : List ℕ)
    → n < length ns
    → SameTree ns (modify ns n (put_content bytes))
put-SameTree ns n bytes h = record {
  count = length-modify ns n (put_content bytes);
  name = field-put (λ m. m.name) ns n bytes h (λ m. refl);
  kind = field-put (λ m. m.kind) ns n bytes h (λ m. refl);
  first_child = field-put (λ m. m.first_child) ns n bytes h (λ m. refl);
  next_sibling = field-put (λ m. m.next_sibling) ns n bytes h (λ m. refl);
  parent = field-put (λ m. m.parent) ns n bytes h (λ m. refl);
}

-- A file system after `bytes` were written to `path`, at the node `r` of `fs`.
pub record Written (fs : Fs) (path bytes : List ℕ) (r : ℕ) (out : Bool × Fs) : Type 0 where
  pub succeeds : out.0 ≡ true
  pub valid : IsFs out.1
  pub node : node_at out.1.nodes r ≡ put_content bytes (node_at fs.nodes r)
  pub others : (i : ℕ) → r ≢ i → node_at out.1.nodes i ≡ node_at fs.nodes i
  pub finds : (q : List ℕ) → fs_find out.1 q ≡ fs_find fs q

module _ (fs : Fs) (v : IsFs fs) (path bytes : List ℕ) where
  pub write_node-Written :
      (r : ℕ)
      → r < length fs.nodes
      → is_dir (node_at fs.nodes r).kind ≡ false
      → Written fs path bytes r (write_node fs r bytes)
  unfolding write_node
  write_node-Written r h k =
      let ns' = modify fs.nodes r (put_content bytes) in
      let t = put-SameTree fs.nodes r bytes h in
      rw (k, write_node)
        (record {
          succeeds = refl;
          valid = record {
            store = IsStore-same fs.nodes ns' t v.store;
            root_in = omega (arith, v.root_in, t.count);
            cwd_in = omega (arith, v.cwd_in, t.count);
            root_dir = ap is_dir (t.kind fs.root) ∙ v.root_dir;
            cwd_dir = ap is_dir (t.kind fs.cwd) ∙ v.cwd_dir;
            root_top = t.parent fs.root ∙ v.root_top;
          };
          node = get_or-modify_self fs.nodes r (put_content bytes) null_node h;
          others = λ i ne. get_or-modify_ne fs.nodes r i (put_content bytes) null_node ne;
          finds = λ q.
              fs_find-resolve (record fs { nodes = ns' }) q
              ∙ same_start q
              ∙ resolve-same fs.nodes ns' t (start fs q) (segments [] q)
              ∙ sym (fs_find-resolve fs q);
        })
    where
      same_start :
          (q : List ℕ)
          → resolve
              (modify fs.nodes r (put_content bytes))
              (start (record fs { nodes = modify fs.nodes r (put_content bytes) }) q)
              (segments [] q)
            ≡ resolve (modify fs.nodes r (put_content bytes)) (start fs q) (segments [] q)
      same_start [] = unfold start in refl
      same_start (c ∷ cs) = unfold start in refl

  -- Where the path leads to a file of a well-formed file system, fs_write_file succeeds and leaves a
  -- well-formed one in which that node holds exactly the bytes and their number and is otherwise as
  -- before, every other node is unchanged, and every path leads where it did.
  pub write_file-Written :
      {r : ℕ}
      → fs_find fs path ≡ some r
      → is_dir (node_at fs.nodes r).kind ≡ false
      → Written fs path bytes r (fs_write_file fs path bytes)
  unfolding fs_write_file
  write_file-Written {r} e k =
      rw (e, fs_write_file) (write_node-Written r (fs_find-in fs v path e) k)

  -- A directory is not written to, and nothing changes.
  pub write_file-dir :
      {r : ℕ}
      → fs_find fs path ≡ some r
      → is_dir (node_at fs.nodes r).kind ≡ true
      → fs_write_file fs path bytes ≡ (false, fs)
  unfolding fs_write_file write_node
  write_file-dir e k = rw (e, fs_write_file, k, write_node)

-- Writing to a node and fs_write_file leave a well-formed file system on every branch.
write_node-IsFs :
    (fs : Fs) (bytes : List ℕ) (r : ℕ)
    → IsFs fs
    → r < length fs.nodes
    → IsFs (write_node fs r bytes).1
unfolding write_node
write_node-IsFs fs bytes r v h = elim (Bool-cases (is_dir (node_at fs.nodes r).kind)) [
  | inl d ↦ rw (d, write_node) v
  | inr f ↦ (write_node-Written fs v [] bytes r h f).valid
]

write_created-IsFs :
    (out : Bool × Fs) (path bytes : List ℕ) → IsFs out.1 → IsFs (write_created out path bytes).1
unfolding write_created
write_created-IsFs (false, fs) path bytes v = v
write_created-IsFs (true, fs) path bytes v = elim (Option-cases (fs_find fs path)) [
  | inl e ↦ rw (e, write_created) v
  | inr (n, e) ↦ rw (e, write_created) (write_node-IsFs fs bytes n v (fs_find-in fs v path e))
]

pub write_file-IsFs :
    (fs : Fs) (path bytes : List ℕ) → IsFs fs → IsFs (fs_write_file fs path bytes).1
unfolding fs_write_file fs_mkfile
write_file-IsFs fs path bytes v = elim (Option-cases (fs_find fs path)) [
  | inl e ↦
      rw (e, fs_write_file)
        (write_created-IsFs (make fs path file) path bytes (make-IsFs fs v path file))
  | inr (n, e) ↦ rw (e, fs_write_file) (write_node-IsFs fs bytes n v (fs_find-in fs v path e))
]
