-- ===== src/Fs/Tests.antt =====
-- The file system of src/fs/filesystem.c on a small tree: "/", "/etc" and "/etc/motd".
use hz_os.Base.{ℕ, zero, suc, ◌≡◌, true, none, some, List, [], ◌∷◌, arith, refl, replicate}
use hz_os.Fs.Session.{fs_init, fs_read}
use hz_os.Fs.Reach.{Reach-IsFs, here, next, mkdir, mkfile}
use hz_os.Fs.ReadBack.{write_file-read}
use hz_os.Fs.{
  Node, dir, null_node, Fs, fs_find, fs_mkfile, fs_write_file, fs_mkdir, write_node, make,
  find_in_dir, walk, same_name, find_loop, step, last_slash, split_at, get_parent_and_name, make_at,
}
use hz_os.Fs.Store.{IsStore}
use hz_os.Fs.Find.{segments}
use hz_os.Fs.Lead.{Leads}
use hz_os.Fs.Tree.{IsFs, start, fs_find-Leads}
use hz_os.Fs.RoundTrip.{IsSegment, under, Found, make-Found}
use hz_os.Fs.LongName.{IsLong}

abbrev etc : List ℕ
etc = b'e' ∷ b't' ∷ b'c' ∷ []

abbrev motd : List ℕ
motd = b'm' ∷ b'o' ∷ b't' ∷ b'd' ∷ []

abbrev root_node : Node
root_node = record null_node { name = b'/' ∷ []; kind = dir; first_child = some 1 }

abbrev etc_node : Node
etc_node = record null_node { name = etc; kind = dir; parent = some 0; first_child = some 2 }

abbrev motd_node : Node
motd_node = record null_node {
  name = motd;
  parent = some 1;
  content = some (b'h' ∷ []);
  content_len = 1;
}

abbrev small : Fs
small = record {
  nodes = root_node ∷ etc_node ∷ motd_node ∷ [];
  root = 0;
  cwd = 0;
  cwd_path = b'/' ∷ [];
}

abbrev etc_motd : List ℕ
etc_motd = b'/' ∷ b'e' ∷ b't' ∷ b'c' ∷ b'/' ∷ b'm' ∷ b'o' ∷ b't' ∷ b'd' ∷ []

abbrev etc_x : List ℕ
etc_x = b'/' ∷ b'e' ∷ b't' ∷ b'c' ∷ b'/' ∷ b'x' ∷ []

small-IsStore : IsStore small.nodes
small-IsStore zero h = record {
  child_up = λ c e. ground arith;
  sibling_up = λ s e. absurd (cc);
  parent_down = λ p e. absurd (cc);
  name_fits = omega arith;
}
small-IsStore (suc zero) h = record {
  child_up = λ c e. ground arith;
  sibling_up = λ s e. absurd (cc);
  parent_down = λ p e. ground arith;
  name_fits = omega arith;
}
small-IsStore (suc (suc zero)) h = record {
  child_up = λ c e. absurd (cc);
  sibling_up = λ s e. absurd (cc);
  parent_down = λ p e. ground arith;
  name_fits = omega arith;
}
small-IsStore (suc (suc (suc i))) h = absurd (omega arith)

small-IsFs : IsFs small
small-IsFs = record {
  store = small-IsStore;
  root_in = omega arith;
  cwd_in = omega arith;
  root_dir = refl;
  cwd_dir = refl;
  root_top = refl;
}

find_motd : fs_find small etc_motd ≡ some 2
unfolding fs_find find_loop step find_in_dir walk same_name
find_motd = refl

make_x : (make small etc_x dir).0 ≡ true
unfolding make get_parent_and_name split_at last_slash fs_find find_loop step find_in_dir walk
    same_name make_at
make_x = refl

x-IsSegment : IsSegment (b'x' ∷ [])
x-IsSegment = record {
  whole = (refl, tt);
  some_char = omega arith;
  short = omega arith;
  not_dot = refl;
  not_dot_dot = refl;
}

make-Found_example :
    Found small etc_x (b'x' ∷ []) (fs_find small (b'/' ∷ etc)) dir (make small etc_x dir)
make-Found_example =
    make-Found small small-IsFs (b'x' ∷ []) etc_x x-IsSegment
      (under (b'/' ∷ b'e' ∷ b't' ∷ b'c' ∷ []) refl) dir make_x

fs_find-Leads_example :
    Leads small.nodes (start small etc_motd) (segments [] etc_motd) (fs_find small etc_motd)
fs_find-Leads_example = fs_find-Leads small etc_motd small-IsFs

abbrev long_name : List ℕ
long_name = replicate 32 b'a'

long_name-IsLong : IsLong long_name
long_name-IsLong = record { whole = ground arith; long = omega arith }

long_name_fresh : find_in_dir small.nodes small.cwd long_name ≡ none
unfolding find_in_dir walk same_name
long_name_fresh = refl

long_name_made : (fs_mkfile small long_name).0 ≡ true
unfolding fs_mkfile make get_parent_and_name split_at last_slash fs_find find_loop step find_in_dir
    walk same_name make_at
long_name_made = refl

-- Two calls, of which the second fails.
Reach-IsFs_example : IsFs (fs_mkfile (fs_mkdir fs_init etc_x).1 etc_x).1
Reach-IsFs_example =
    Reach-IsFs (next (next here (mkdir fs_init etc_x)) (mkfile (fs_mkdir fs_init etc_x).1 etc_x))

write_motd : (fs_write_file small etc_motd (1 ∷ 2 ∷ [])).0 ≡ true
unfolding fs_write_file write_node fs_find find_loop step find_in_dir walk same_name
write_motd = refl

write_file-read_example :
    fs_read (fs_write_file small etc_motd (1 ∷ 2 ∷ [])).1 none etc_motd ≡ some (1 ∷ 2 ∷ [])
write_file-read_example = write_file-read small etc_motd (1 ∷ 2 ∷ []) small-IsFs write_motd
