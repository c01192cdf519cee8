-- ===== src/Fs/ReadBack.antt =====
-- Reading what was written, through fs_write_file and fs_read of src/fs/filesystem.c.
use hz_os.Base.{
  ℕ, ◌≡◌, Bool, true, false, none, some, List, arith, ap, ◌∙◌, Bool-cases, Option-cases, inl, inr,
  length, take-eq_of_le,
}
use hz_os.Fs.{
  Fs, Node, node_at, is_dir, file, fs_find, make, fs_mkfile, write_node, write_created,
  fs_write_file,
}
use hz_os.Fs.Tree.{IsFs, make-IsFs, fs_find-in}
use hz_os.Fs.Write.{put_content, write_node-Written}
use hz_os.Fs.Session.{file_bytes, read_node, fs_read}

-- The file that a path leads to is read.
read_node-file :
    (fs : Fs) (path bytes : List ℕ) (n : ℕ) (m : Node)
    → fs_find fs path ≡ some n
    → node_at fs.nodes n ≡ put_content bytes m
    → is_dir m.kind ≡ false
    → read_node fs path ≡ some bytes
unfolding read_node
read_node-file fs path bytes n m e same k =
    rw (e, read_node)
      (let kind : is_dir (node_at fs.nodes n).kind ≡ false =
          ap (λ (x : Node). is_dir x.kind) same ∙ k in
        rw kind (
          ap file_bytes same
          ∙ ap (λ bs. some bs) (take-eq_of_le (length bytes) bytes (omega arith))))

write_node-read :
    (fs : Fs) (path bytes : List ℕ) (n : ℕ)
    → IsFs fs
    → fs_find fs path ≡ some n
    → (write_node fs n bytes).0 ≡ true
    → read_node (write_node fs n bytes).1 path ≡ some bytes
unfolding write_node
write_node-read fs path bytes n v e ok = elim (Bool-cases (is_dir (node_at fs.nodes n).kind)) [
  | inl d ↦ absurd (ground (arith, d, ok))
  | inr k ↦
      let w = write_node-Written fs v path bytes n (fs_find-in fs v path e) k in
      read_node-file (write_node fs n bytes).1 path bytes n (node_at fs.nodes n) (w.finds path ∙ e)
        w.node k
]

write_created-read :
    (out : Bool × Fs) (path bytes : List ℕ)
    → IsFs out.1
    → (write_created out path bytes).0 ≡ true
    → read_node (write_created out path bytes).1 path ≡ some bytes
unfolding write_created
write_created-read (false, fs) path bytes v ok = absurd (cc)
write_created-read (true, fs) path bytes v ok = elim (Option-cases (fs_find fs path)) [
  | inl e ↦ absurd (ground (arith, e, ok))
  | inr (n, e) ↦
      rw (e, write_created) (write_node-read fs path bytes n v e (rw (e, write_created) at ok))
]

-- On a well-formed file system, what fs_write_file writes when it succeeds, to an old file or a new
-- one, is what fs_read gives for the same path afterwards, where ext2 gives nothing for it.
pub write_file-read :
    (fs : Fs) (path bytes : List ℕ)
    → IsFs fs
    → (fs_write_file fs path bytes).0 ≡ true
    → fs_read (fs_write_file fs path bytes).1 none path ≡ some bytes
unfolding fs_read fs_write_file fs_mkfile
write_file-read fs path bytes v ok = elim (Option-cases (fs_find fs path)) [
  | inl e ↦
      rw (e, fs_write_file)
        (write_created-read (make fs path file) path bytes (make-IsFs fs v path file)
          (rw (e, fs_write_file) at ok))
  | inr (n, e) ↦
      rw (e, fs_write_file) (write_node-read fs path bytes n v e (rw (e, fs_write_file) at ok))
]
