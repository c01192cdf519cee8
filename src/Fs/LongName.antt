-- ===== src/Fs/LongName.antt =====
-- fs_write_file of src/fs/filesystem.c with a name that does not fit into a node.
use hz_os.Base.{
  ℕ, ◌+◌, ◌<◌, ◌≡◌, ◌≢◌, Bool, true, false, Option, none, some, List, [], ◌∷◌, arith, refl, subst,
  ap, ap₂, sym, ◌∙◌, length, All, ◌==◌, take, length-take,
}
use hz_os.Fs.{
  file, same_name, find_in_dir, is_dot, is_dot_dot, step, create_node, Fs, fs_find,
  get_parent_and_name, make, fs_mkfile, split_at, write_created, fs_write_file,
}
use hz_os.Fs.Store.{some_inj}
use hz_os.Fs.Find.{resolve, resolve-one}
use hz_os.Fs.Frame.{find_parent, or_new}
use hz_os.Fs.Tree.{IsFs, fs_find-resolve, Made, refused, added, make-Made}
use hz_os.Fs.RoundTrip.{last_slash-whole, segments-whole, flush-segment, start-whole}

same_name-length : (a b : List ℕ) → length a ≢ length b → same_name a b ≡ false
unfolding same_name
same_name-length [] [] h = absurd (h refl)
same_name-length [] (b ∷ bs) h = refl
same_name-length (a ∷ as') [] h = refl
same_name-length (a ∷ as') (b ∷ bs) h = ground (arith, same_name-length as' bs)

-- More characters than a node's name holds, none of them a slash.
pub record IsLong (n : List ℕ) : Type 0 where
  pub whole : All (λ c. (c == b'/') ≡ false) n
  pub long : 31 < length n

long-dots : (n : List ℕ) → 31 < length n → (is_dot_dot n ≡ false) × (is_dot n ≡ false)
long-dots [] h = absurd (omega arith)
long-dots (a ∷ []) h = absurd (omega arith)
long-dots (a ∷ b ∷ []) h = absurd (omega arith)
long-dots (a ∷ b ∷ c ∷ cs) h = (refl, refl)

module _ (n : List ℕ) (g : IsLong n) where
  -- Such a name alone is looked up in the current directory.
  fs_find-long : (fs : Fs) → fs_find fs n ≡ find_in_dir fs.nodes fs.cwd n
  fs_find-long fs =
      fs_find-resolve fs n
      ∙ ap₂ (resolve fs.nodes) (start-whole fs n g.whole)
          (segments-whole [] n g.whole ∙ flush-segment n (omega (arith, g.long)))
      ∙ resolve-one fs.nodes fs.cwd n
      ∙ plain
    where
      plain : step fs.nodes fs.cwd n ≡ find_in_dir fs.nodes fs.cwd n
      plain = unfold step in (rw ((long-dots n g.long).0, (long-dots n g.long).1))

  split-long : (fs : Fs) → get_parent_and_name fs n ≡ (some fs.cwd, take 31 n)
  unfolding get_parent_and_name split_at
  split-long fs = rw (last_slash-whole n 0 none g.whole, split_at)

  module _ (fs : Fs) (v : IsFs fs) (fresh : find_in_dir fs.nodes fs.cwd n ≡ none) where
    -- The node that is made has another name.
    Made-lost :
        {out : Bool × Fs}
        → Made fs (some fs.cwd) (take 31 n) file out
        → out.0 ≡ true
        → (fs_find out.1 n ≡ none) × (length out.1.nodes ≡ length fs.nodes + 1)
    unfolding create_node
    Made-lost refused ok = absurd (cc)
    Made-lost (added p {ns} e inside k none_p a) ok =
        let same : fs.cwd ≡ p = some_inj refl e in
        let cut = length-take 31 n in
        let cut' = length-take 31 (take 31 n) in
        (
          fs_find-long (record fs { nodes = ns })
              ∙ ap (λ c. find_in_dir ns c n) same
              ∙ find_parent fs.nodes v.store (create_node (take 31 n) file (some p)) p inside ns a n
                  k
              ∙ ap₂ (λ o b. or_new o b (length fs.nodes))
                  (ap (λ c. find_in_dir fs.nodes c n) (sym same) ∙ fresh)
                  (same_name-length (take 31 (take 31 n)) n (omega (arith, g.long))),
          a.count,
        )

    made : Made fs (some fs.cwd) (take 31 n) file (fs_mkfile fs n)
    unfolding fs_mkfile
    made =
        subst (λ (q : Option ℕ × List ℕ). Made fs q.0 q.1 file (make fs n file)) (split-long fs)
          (make-Made fs v n file)

    lost :
        (bytes : List ℕ) (out : Bool × Fs)
        → out.0 ≡ true
        → (fs_find out.1 n ≡ none) × (length out.1.nodes ≡ length fs.nodes + 1)
        → let (ok, fs') = write_created out n bytes in
          (ok ≡ false) × (fs_find fs' n ≡ none) × (length fs'.nodes ≡ length fs.nodes + 1)
    unfolding write_created
    lost bytes (false, fs') ok h = absurd (cc)
    lost bytes (true, fs') ok h = rw (h.0, write_created) (refl, h.0, h.1)

    -- A name of more than 31 characters, none of them a slash, that is not in the current directory:
    -- where the file can be made at all (its first 31 characters are not taken either),
    -- fs_write_file reports failure and still leaves a new node behind, which the name does not lead
    -- to.
    pub write_file-long :
        (bytes : List ℕ)
        → (fs_mkfile fs n).0 ≡ true
        → let (ok, fs') = fs_write_file fs n bytes in
          (ok ≡ false) × (fs_find fs' n ≡ none) × (length fs'.nodes ≡ length fs.nodes + 1)
    unfolding fs_write_file
    write_file-long bytes ok =
        rw (fs_find-long fs ∙ fresh, fs_write_file)
          (lost bytes (fs_mkfile fs n) ok (Made-lost made ok))
