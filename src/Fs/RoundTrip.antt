-- ===== src/Fs/RoundTrip.antt =====
-- What fs_mkdir and fs_mkfile of src/fs/filesystem.c make is found again under the path they were
-- given, and what fs_write_file writes is there.
use hz_os.Base.{
  ℕ, suc, ◌+◌, ◌≤◌, ◌<◌, ◌≡◌, inl, inr, Bool, true, false, Option, none, some, List, [], ◌∷◌, ◌++◌,
  arith, refl, ap, ap₂, sym, ◌∙◌, subst, length, All, if◌then◌else◌, ◌==◌, Bool-cases, Option-cases,
  take, drop, take-eq_of_le, take-append_length, append_assoc, append-nil,
}
use hz_os.Fs.{
  Node, NodeType, node_at, same_name, find_in_dir, is_dir, is_dot, is_dot_dot, step, create_node,
  Fs, fs_find, last_slash, get_parent_and_name, make, split_at,
}
use hz_os.Fs.Store.{some_inj}
use hz_os.Fs.Make.{Added}
use hz_os.Fs.Find.{segments, resolve, resolve-one, flush}
use hz_os.Fs.Frame.{find_parent, or_new}
use hz_os.Fs.Tree.{IsFs, start, fs_find-resolve, Made, refused, added, make-Made, make-kept}

-- A segment: characters that are no slash, at least one and at most 31 of them, and neither "." nor
-- "..".
pub record IsSegment (n : List ℕ) : Type 0 where
  pub whole : All (λ c. (c == b'/') ≡ false) n
  pub some_char : 0 < length n
  pub short : length n ≤ 31
  pub not_dot : is_dot n ≡ false
  pub not_dot_dot : is_dot_dot n ≡ false

-- `path` ends in the segment `n`, which stands alone or behind a slash.
pub data EndsIn (n : List ℕ) : List ℕ → Type 0 where
  alone : EndsIn n n
  under : (p : List ℕ) {path : List ℕ} → path ≡ p ++ (b'/' ∷ n) → EndsIn n path

same_name_refl : (n : List ℕ) → same_name n n ≡ true
unfolding same_name
same_name_refl [] = refl
same_name_refl (c ∷ cs) = ground (arith, same_name_refl cs)

-- The scan for the last slash.
pub last_slash-whole :
    (n : List ℕ) (i : ℕ) (o : Option ℕ) → All (λ c. (c == b'/') ≡ false) n → last_slash n i o ≡ o
unfolding last_slash
last_slash-whole [] i o h = refl
last_slash-whole (c ∷ cs) i o h = rw h.0 (last_slash-whole cs (i + 1) o h.1)

last_slash-under :
    (p n : List ℕ) (i : ℕ) (o : Option ℕ)
    → All (λ c. (c == b'/') ≡ false) n
    → last_slash (p ++ (b'/' ∷ n)) i o ≡ some (i + length p)
unfolding last_slash
last_slash-under [] n i o h = last_slash-whole n (i + 1) (some i) h ∙ ap some (omega arith)
last_slash-under (c ∷ p) n i o h =
    last_slash-under p n (i + 1) (if c == b'/' then some i else o) h ∙ ap some (omega arith)

-- The segments of a path that ends in `n`.
pub segments-whole :
    (seg n : List ℕ) → All (λ c. (c == b'/') ≡ false) n → segments seg n ≡ flush (seg ++ n) []
unfolding segments
segments-whole seg [] h = ap (λ s. flush s []) (sym (append-nil seg))
segments-whole seg (c ∷ cs) h =
    rw (h.0, segments)
      (segments-whole (seg ++ (c ∷ [])) cs h.1
        ∙ ap (λ s. flush s []) (append_assoc seg (c ∷ []) cs))

flush-append : (seg : List ℕ) (xs ys : List (List ℕ)) → flush seg (xs ++ ys) ≡ flush seg xs ++ ys
flush-append [] xs ys = refl
flush-append (s ∷ seg) xs ys = refl

pub segments-under :
    (seg p n : List ℕ)
    → All (λ c. (c == b'/') ≡ false) n
    → segments seg (p ++ (b'/' ∷ n)) ≡ segments seg p ++ flush n []
unfolding segments
segments-under seg [] n h =
    ap (flush seg) (segments-whole [] n h) ∙ flush-append seg [] (flush n [])
segments-under seg (c ∷ p) n h = elim (Bool-cases (c == b'/')) [
  | inl e ↦
      rw (e, segments)
        (ap (flush seg) (segments-under [] p n h) ∙ flush-append seg (segments [] p) (flush n []))
  | inr e ↦ rw (e, segments) (segments-under (seg ++ (c ∷ [])) p n h)
]

pub resolve-append :
    (ns : List Node) (cur : ℕ) (xs ys : List (List ℕ)) {r : ℕ}
    → resolve ns cur xs ≡ some r
    → resolve ns cur (xs ++ ys) ≡ resolve ns r ys
unfolding resolve
resolve-append ns cur [] ys e = ground arith
resolve-append ns cur (x ∷ xs) ys e = elim (Option-cases (step ns cur x)) [
  | inl z ↦ absurd (ground arith)
  | inr (n, z) ↦ rw (z, resolve) (resolve-append ns n xs ys (rw (z, resolve) at e))
]

drop-under : (p : List ℕ) (c : ℕ) (n : List ℕ) → drop (suc (length p)) (p ++ (c ∷ n)) ≡ n
drop-under [] c n = refl
drop-under (x ∷ p) c n = drop-under p c n

pub flush-segment : (n : List ℕ) → 0 < length n → flush n [] ≡ n ∷ []
flush-segment [] h = elim h [ ]
flush-segment (c ∷ cs) h = refl

pub start-whole : (fs : Fs) (n : List ℕ) → All (λ c. (c == b'/') ≡ false) n → start fs n ≡ fs.cwd
unfolding start
start-whole fs [] g = refl
start-whole fs (c ∷ cs) g = rw (g.0, start)

-- How fs_find and the making of a node see a path that ends in the segment `n`: the name is `n`,
-- and in any store `ns` in which what resolved before still does, the path leads where one step from
-- the parent by `n` leads.
record Parted (fs : Fs) (path n : List ℕ) : Type 0 where
  name : (get_parent_and_name fs path).1 ≡ n
  leads :
      (p : ℕ) (ns : List Node)
      → (get_parent_and_name fs path).0 ≡ some p
      → ((q : List ℕ) (r : ℕ)
          → fs_find fs q ≡ some r
          → fs_find (record fs { nodes = ns }) q ≡ some r)
      → fs_find (record fs { nodes = ns }) path ≡ step ns p n

module _ (fs : Fs) (n : List ℕ) (g : IsSegment n) where
  Parted-alone : Parted fs n n
  unfolding get_parent_and_name split_at
  Parted-alone =
      let e = last_slash-whole n 0 none g.whole in
      record {
        name = rw (e, split_at) (take-eq_of_le 31 n g.short);
        leads = λ p ns h kept.
            let fs' = record fs { nodes = ns } in
            let at_cwd : fs.cwd ≡ p = some_inj refl (rw (e, split_at) at h) in
            fs_find-resolve fs' n
            ∙ ap₂ (resolve ns) (start-whole fs' n g.whole)
                (segments-whole [] n g.whole ∙ flush-segment n g.some_char)
            ∙ resolve-one ns fs.cwd n
            ∙ ap (λ c. step ns c n) at_cwd;
      }

  -- The step that is left, once what stands in front of the last slash is resolved.
  last-step :
      (q : List ℕ) (p : ℕ) (ns : List Node) (from : ℕ)
      → resolve ns from (segments [] q) ≡ some p
      → resolve ns from (segments [] (q ++ (b'/' ∷ n))) ≡ step ns p n
  last-step q p ns from e =
      ap (resolve ns from)
        (segments-under [] q n g.whole ∙ ap (λ s. segments [] q ++ s) (flush-segment n g.some_char))
      ∙ resolve-append ns from (segments [] q) (n ∷ []) e
      ∙ resolve-one ns p n

  Parted-under : (q : List ℕ) → Parted fs (q ++ (b'/' ∷ n)) n
  unfolding get_parent_and_name split_at start
  Parted-under [] =
      let e = last_slash-under [] n 0 none g.whole in
      record {
        name = rw (e, split_at) (take-eq_of_le 31 n g.short);
        leads = λ p ns h kept.
            let at_root : fs.root ≡ p = some_inj refl (rw (e, split_at) at h) in
            fs_find-resolve (record fs { nodes = ns }) (b'/' ∷ n)
            ∙ last-step [] p ns fs.root (unfold resolve segments in ap some at_root);
      }
  Parted-under (c ∷ q) =
      let i = length q in
      let two : suc i + 1 ≡ suc (suc i) = omega arith in
      let e : last_slash ((c ∷ q) ++ (b'/' ∷ n)) 0 none ≡ some (suc i) =
        last_slash-under (c ∷ q) n 0 none g.whole ∙ ap some (omega arith) in
      record {
        name =
            rw (e, split_at)
              (ap (λ k. take 31 (drop k ((c ∷ q) ++ (b'/' ∷ n)))) two
                ∙ ap (take 31) (drop-under (c ∷ q) b'/' n)
                ∙ take-eq_of_le 31 n g.short);
        leads = λ p ns h kept.
            let found : fs_find fs (c ∷ q) ≡ some p =
              ap (fs_find fs) (sym (take-append_length (c ∷ q) (b'/' ∷ n)))
              ∙ (rw (e, split_at) at h) in
            fs_find-resolve (record fs { nodes = ns }) ((c ∷ q) ++ (b'/' ∷ n))
            ∙ last-step (c ∷ q) p ns (start (record fs { nodes = ns }) (c ∷ q))
                (sym (fs_find-resolve (record fs { nodes = ns }) (c ∷ q)) ∙ kept (c ∷ q) p found);
      }

  Parted-of : {path : List ℕ} → EndsIn n path → Parted fs path n
  Parted-of alone = Parted-alone
  Parted-of (under q e) = subst (λ path. Parted fs path n) (sym e) (Parted-under q)

-- A node with a name, a type and a parent, and nothing else.
abbrev pub new_node : List ℕ → NodeType → Option ℕ → Node
new_node name kind parent = record {
  name = name;
  kind = kind;
  first_child = none;
  next_sibling = none;
  parent = parent;
  content = none;
  content_len = 0;
}

created :
    (n : List ℕ) (kind : NodeType) (parent : Option ℕ)
    → length n ≤ 31
    → create_node n kind parent ≡ new_node n kind parent
unfolding create_node
created n kind parent short = ap (λ m. new_node m kind parent) (take-eq_of_le 31 n short)

-- The directory that the part of a path in front of its last segment leads to.
abbrev pub above : Fs → List ℕ → Option ℕ
above fs [] = some fs.root
above fs (c ∷ q) = fs_find fs (c ∷ q)

abbrev pub directory_of : Fs → {n path : List ℕ} → EndsIn n path → Option ℕ
directory_of fs alone = some fs.cwd
directory_of fs (under q e) = above fs q

parent_under :
    (fs : Fs) (n : List ℕ)
    → IsSegment n
    → (q : List ℕ) → (get_parent_and_name fs (q ++ (b'/' ∷ n))).0 ≡ above fs q
unfolding get_parent_and_name split_at
parent_under fs n g [] = rw (last_slash-under [] n 0 none g.whole, split_at) refl
parent_under fs n g (c ∷ q) =
    let e : last_slash ((c ∷ q) ++ (b'/' ∷ n)) 0 none ≡ some (suc (length q)) =
      last_slash-under (c ∷ q) n 0 none g.whole ∙ ap some (omega arith) in
    rw (e, split_at) (ap (fs_find fs) (take-append_length (c ∷ q) (b'/' ∷ n)))

parent-directory :
    (fs : Fs) (n : List ℕ)
    → IsSegment n
    → {path : List ℕ} (ends : EndsIn n path)
    → (get_parent_and_name fs path).0 ≡ directory_of fs ends
unfolding get_parent_and_name split_at
parent-directory fs n g alone = rw (last_slash-whole n 0 none g.whole, split_at) refl
parent-directory fs n g (under q e) =
    subst (λ p. (get_parent_and_name fs p).0 ≡ above fs q) (sym e) (parent_under fs n g q)

-- What is made by a call that succeeds.
pub record Found (fs : Fs) (path n : List ℕ) (parent : Option ℕ) (kind : NodeType) (out : Bool × Fs)
    : Type 0 where
  pub found : fs_find out.1 path ≡ some (length fs.nodes)
  pub node : node_at out.1.nodes (length fs.nodes) ≡ new_node n kind parent
  pub count : length out.1.nodes ≡ length fs.nodes + 1

module _ (fs : Fs) (v : IsFs fs) (n path : List ℕ) (g : IsSegment n) (ends : EndsIn n path) where
  step_new :
      (p : ℕ) (ns : List Node) (kind : NodeType)
      → p < length fs.nodes
      → is_dir (node_at fs.nodes p).kind ≡ true
      → find_in_dir fs.nodes p n ≡ none
      → Added fs.nodes (create_node n kind (some p)) p ns
      → step ns p n ≡ some (length fs.nodes)
  unfolding step create_node
  step_new p ns kind inside k fresh a =
      rw (g.not_dot_dot, g.not_dot)
        (find_parent fs.nodes v.store (create_node n kind (some p)) p inside ns a n k
          ∙ ap₂ (λ o b. or_new o b (length fs.nodes)) fresh
              (ap (λ m. same_name m n) (take-eq_of_le 31 n g.short) ∙ same_name_refl n))

  Made-Found :
      (kind : NodeType) {out : Bool × Fs}
      → Made fs (get_parent_and_name fs path).0 (get_parent_and_name fs path).1 kind out
      → ((q : List ℕ) (r : ℕ) → fs_find fs q ≡ some r → fs_find out.1 q ≡ some r)
      → out.0 ≡ true
      → Found fs path n (directory_of fs ends) kind out
  Made-Found kind refused kept ok = absurd (cc)
  Made-Found kind (added p {ns} e inside k fresh a) kept ok =
      let pt = Parted-of fs n g ends in
      record {
        found =
            pt.leads p ns e kept
            ∙ step_new p ns kind inside k (ap (find_in_dir fs.nodes p) (sym pt.name) ∙ fresh)
                (subst (λ m. Added fs.nodes (create_node m kind (some p)) p ns) pt.name a);
        node =
            a.new
            ∙ ap₂ (λ m o. create_node m kind o) pt.name (sym e)
            ∙ created n kind (get_parent_and_name fs path).0 g.short
            ∙ ap (new_node n kind) (parent-directory fs n g ends);
        count = a.count;
      }

  -- Where fs_mkdir or fs_mkfile of a path that ends in a segment of 1 to 31 characters other than
  -- "." and ".." succeeds on a well-formed file system, fs_find of the same path returns the node
  -- that it has allocated, which has the type asked for, that segment as its name, as its parent the
  -- directory that the path in front of the segment leads to, which is the current directory where
  -- nothing stands in front and the root where only a slash does, and neither children nor a sibling
  -- behind it nor content; exactly one node was allocated.
  pub make-Found :
      (kind : NodeType)
      → (make fs path kind).0 ≡ true
      → Found fs path n (directory_of fs ends) kind (make fs path kind)
  make-Found kind ok =
      Made-Found kind (make-Made fs v path kind) (λ q r e. (make-kept fs v path kind q e).0) ok
