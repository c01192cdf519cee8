-- ===== src/Fs/Reach.antt =====
-- The states that the operations of src/fs/filesystem.c lead to from fs_init.
use hz_os.Base.{
  ℕ, zero, suc, ◌<◌, ◌≡◌, Bool, true, Option, none, some, List, length, arith, refl, subst,
  Bool-cases, Option-cases, inl, inr,
}
use hz_os.Fs.{
  Fs, node_at, is_dir, create_node, add_child, last_sibling, fs_find, fs_mkdir, fs_mkfile,
  fs_write_file, dir, file,
}
use hz_os.Fs.Store.{IsStore}
use hz_os.Fs.Tree.{IsFs, make-IsFs, fs_find-in}
use hz_os.Fs.Write.{write_file-IsFs}
use hz_os.Fs.Session.{fs_init, install, fs_chdir, enter, new_path}

-- One call; the calls that fail are steps too. A change to a directory with a path of more than 255
-- characters has no outcome.
pub data Step : Fs → Fs → Type 0 where
  mkdir : (fs : Fs) (path : List ℕ) → Step fs (fs_mkdir fs path).1
  mkfile : (fs : Fs) (path : List ℕ) → Step fs (fs_mkfile fs path).1
  write : (fs : Fs) (path bytes : List ℕ) → Step fs (fs_write_file fs path bytes).1
  chdir :
      (fs : Fs) (path : List ℕ) {ok : Bool} {fs' : Fs}
      → fs_chdir fs path ≡ some (ok, fs')
      → Step fs fs'

-- Some calls, one after the other.
pub data Reach (s : Fs) : Fs → Type 0 where
  here : Reach s s
  next : {t u : Fs} → Reach s t → Step t u → Reach s u

-- Where the outcome is defined, it is well-formed.
abbrev Valid : Option (Bool × Fs) → Type 0
Valid none = Unit
Valid (some (ok, fs)) = IsFs fs

enter-Valid :
    (fs : Fs) (n : ℕ)
    → IsFs fs
    → n < length fs.nodes
    → is_dir (node_at fs.nodes n).kind ≡ true
    → Valid (enter fs n)
unfolding enter
enter-Valid fs n v h d = elim (Option-cases (new_path fs n)) [
  | inl e ↦ rw (e, enter) tt
  | inr (text, e) ↦
      rw (e, enter)
        (record {
          store = v.store;
          root_in = v.root_in;
          cwd_in = h;
          root_dir = v.root_dir;
          cwd_dir = d;
          root_top = v.root_top;
        })
]

chdir-Valid : (fs : Fs) (path : List ℕ) → IsFs fs → Valid (fs_chdir fs path)
unfolding fs_chdir
chdir-Valid fs path v = elim (Option-cases (fs_find fs path)) [
  | inl e ↦ rw (e, fs_chdir) v
  | inr (n, e) ↦ elim (Bool-cases (is_dir (node_at fs.nodes n).kind)) [
    | inl d ↦ rw (e, fs_chdir, d) (enter-Valid fs n v (fs_find-in fs v path e) d)
    | inr f ↦ rw (e, fs_chdir, f) v
  ]
]

Step-IsFs : {s t : Fs} → Step s t → IsFs s → IsFs t
unfolding fs_mkdir fs_mkfile
Step-IsFs (mkdir fs path) v = make-IsFs fs v path dir
Step-IsFs (mkfile fs path) v = make-IsFs fs v path file
Step-IsFs (write fs path bytes) v = write_file-IsFs fs path bytes v
Step-IsFs (chdir fs path e) v = subst Valid e (chdir-Valid fs path v)

init-IsStore : IsStore fs_init.nodes
unfolding fs_init install create_node add_child last_sibling
init-IsStore zero h = record {
  child_up = λ c e. ground arith;
  sibling_up = λ s e. absurd (cc);
  parent_down = λ p e. absurd (cc);
  name_fits = omega arith;
}
init-IsStore (suc zero) h = record {
  child_up = λ c e. absurd (cc);
  sibling_up = λ s e. ground arith;
  parent_down = λ p e. ground arith;
  name_fits = omega arith;
}
init-IsStore (suc (suc zero)) h = record {
  child_up = λ c e. absurd (cc);
  sibling_up = λ s e. ground arith;
  parent_down = λ p e. ground arith;
  name_fits = omega arith;
}
init-IsStore (suc (suc (suc zero))) h = record {
  child_up = λ c e. ground arith;
  sibling_up = λ s e. absurd (cc);
  parent_down = λ p e. ground arith;
  name_fits = omega arith;
}
init-IsStore (suc (suc (suc (suc zero)))) h = record {
  child_up = λ c e. absurd (cc);
  sibling_up = λ s e. ground arith;
  parent_down = λ p e. ground arith;
  name_fits = omega arith;
}
init-IsStore (suc (suc (suc (suc (suc zero))))) h = record {
  child_up = λ c e. absurd (cc);
  sibling_up = λ s e. absurd (cc);
  parent_down = λ p e. ground arith;
  name_fits = omega arith;
}
init-IsStore (suc (suc (suc (suc (suc (suc i)))))) h = absurd (omega arith)

init-IsFs : IsFs fs_init
unfolding fs_init install create_node add_child last_sibling
init-IsFs = record {
  store = init-IsStore;
  root_in = omega arith;
  cwd_in = omega arith;
  root_dir = refl;
  cwd_dir = refl;
  root_top = refl;
}

-- Whatever calls of fs_mkdir, fs_mkfile and fs_write_file follow fs_init, and of fs_chdir as far as
-- they do not enter a directory whose path has more than 255 characters, for which the code writes
-- in front of its buffer, and whether they succeed or fail, the file system is well-formed: its
-- links make a tree below the root, names fit, and root and current directory are directories.
pub Reach-IsFs : {fs : Fs} → Reach fs_init fs → IsFs fs
Reach-IsFs here = init-IsFs
Reach-IsFs (next r st) = Step-IsFs st (Reach-IsFs r)
