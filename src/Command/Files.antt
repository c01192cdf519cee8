-- ===== src/Command/Files.antt =====
-- The commands write and cat of src/shell/command.c on the file system.
use hz_os.Base.{
  ℕ, ◌≤◌, ◌≡◌, Bool, true, false, Option, none, some, List, [], ◌∷◌, ◌++◌, length, arith, refl, ap,
  ◌∙◌, ◌==◌, take-eq_of_le, length-append, if-false,
}
use hz_os.Base.Text.{codes}
use hz_os.Fs.{Fs, fs_write_file, same_name}
use hz_os.Fs.Session.{fs_read}
use hz_os.Fs.Tree.{IsFs}
use hz_os.Fs.ReadBack.{write_file-read}
use hz_os.Command.{
  cat, path_required, Shell, chars, message, written, skip_spaces, skip_plain, split_word,
  find_command, cmd_write, cmd_cat, wrote, run, dispatch, command_execute, emit,
}
use hz_os.Command.Parse.{
  IsWord, Unindented, IsWord-Unindented, start_word, skip_spaces-Unindented, skip_plain-Unindented,
  split_word-word, no_space,
}

-- The line "write path content".
abbrev pub write_line : List ℕ → List ℕ → List ℕ
write_line path content = codes "write " ++ (path ++ (b' ' ∷ content))

abbrev pub cat_line : List ℕ → List ℕ
cat_line path = codes "cat " ++ path

-- What the shell keeps and prints for a file that was written.
abbrev pub after_write : Shell → List ℕ → List ℕ → Fs → Shell
after_write sh path content fs =
    emit (record sh { fs = fs }) (message (written (length content) path))

cmd_write-parsed :
    (sh : Shell) (path content : List ℕ)
    → 1 ≤ length path
    → length path ≤ 255
    → IsWord path
    → Unindented content
    → cmd_write sh (path ++ (b' ' ∷ content))
      ≡ wrote sh path content (fs_write_file sh.fs path content)
unfolding cmd_write skip_plain
cmd_write-parsed sh path content some_char fits w u =
    let plain =
      skip_plain-Unindented (path ++ (b' ' ∷ content))
        (IsWord-Unindented path (b' ' ∷ content) some_char w) in
    let words = split_word-word (λ c. c == b' ') path content b' ' (no_space path w) refl in
    let whole = take-eq_of_le 255 path fits in
    let tail = skip_plain-Unindented content u in
    let full : (length (path ++ (b' ' ∷ content)) == 0) ≡ false =
      ground (arith, length-append path (b' ' ∷ content)) in
    rw (cmd_write, plain, words, whole, tail, full) refl

write-executes :
    (sh : Shell) (ext2 : List ℕ → Option (List ℕ)) (path content : List ℕ)
    → 1 ≤ length path
    → IsWord path
    → command_execute sh ext2 (write_line path content)
      ≡ some (cmd_write sh (path ++ (b' ' ∷ content)))
unfolding command_execute dispatch skip_spaces split_word find_command run same_name
write-executes sh ext2 path content some_char w =
    let rest : List ℕ = path ++ (b' ' ∷ content) in
    let full : (length (write_line path content) == 0) ≡ false = ground arith in
    if-false (λ o. o ≡ some (cmd_write sh rest)) (some sh) full
      (ap (λ args. some (cmd_write sh args))
        (skip_spaces-Unindented rest (IsWord-Unindented path (b' ' ∷ content) some_char w)))

wrote-ok :
    (sh : Shell) (path content : List ℕ) (out : Bool × Fs)
    → out.0 ≡ true
    → wrote sh path content out ≡ after_write sh path content out.1
wrote-ok sh path content (true, fs) ok = refl
wrote-ok sh path content (false, fs) ok = absurd (cc)

cat-executes :
    (sh : Shell) (ext2 : List ℕ → Option (List ℕ)) (path : List ℕ) {text : List ℕ}
    → 1 ≤ length path
    → IsWord path
    → fs_read sh.fs (ext2 path) path ≡ some text
    → command_execute sh ext2 (cat_line path) ≡ some (emit sh (chars (text ++ (10 ∷ []))))
unfolding command_execute dispatch skip_spaces split_word find_command run same_name cmd_cat
cat-executes sh ext2 path {text = text} some_char w read =
    let goal = λ (o : Option Shell). o ≡ some (emit sh (chars (text ++ (10 ∷ [])))) in
    let plain = skip_spaces-Unindented path (start_word path w) in
    let full : (length (cat_line path) == 0) ≡ false = ground arith in
    let full_path : (length path == 0) ≡ false = ground (arith, some_char) in
    if-false goal (some sh) full (
      rw (plain, plain)
        (if-false (λ s. some s ≡ some (emit sh (chars (text ++ (10 ∷ [])))))
          (emit sh (message (path_required cat))) full_path (rw read refl)))

-- For a path of 1 to 255 characters without blanks, a content that does not begin with a blank and
-- a well-formed file system, if fs_write_file succeeds, then the line "write path content" reports
-- what was written, and the line "cat path" after it prints the content and a newline, provided
-- that ext2 has no file of that path.
pub write-cat :
    (sh : Shell) (ext2 : List ℕ → Option (List ℕ)) (path content : List ℕ)
    → IsFs sh.fs
    → 1 ≤ length path
    → length path ≤ 255
    → IsWord path
    → Unindented content
    → ext2 path ≡ none
    → (fs_write_file sh.fs path content).0 ≡ true
    → let sh' = after_write sh path content (fs_write_file sh.fs path content).1 in
      (command_execute sh ext2 (write_line path content) ≡ some sh')
      × (command_execute sh' ext2 (cat_line path) ≡ some (emit sh' (chars (content ++ (10 ∷ [])))))
write-cat sh ext2 path content v some_char fits w u no_ext2 ok =
    let fs' = (fs_write_file sh.fs path content).1 in
    let written =
      cmd_write-parsed sh path content some_char fits w u
      ∙ wrote-ok sh path content (fs_write_file sh.fs path content) ok in
    (
      write-executes sh ext2 path content some_char w ∙ ap (λ s. some s) written,
      cat-executes (after_write sh path content fs') ext2 path some_char w
          (ap (λ o. fs_read fs' o path) no_ext2 ∙ write_file-read sh.fs path content v ok),
    )
