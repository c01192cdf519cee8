-- ===== src/FileBrowser/Click.antt =====
-- Going into a directory and back, in src/apps/file_browser.c.
use hz_os.Base.{
  ℕ, zero, suc, ◌+◌, ◌-◌, ◌/◌, ◌≤◌, ◌<◌, ◌≡◌, true, false, Option, none, some, List, [], ◌∷◌, ◌++◌,
  if◌then◌else◌, ltb, ◌==◌, lt→ltb, length, length-append, get_or, take, take-append_length, All,
  arith, refl, ap, sym, ◌∙◌, if-true, if-false,
}
use hz_os.Base.Int.{pos}
use hz_os.Fs.{Node, Fs, node_at, is_dir, find_in_dir, step, fs_find}
use hz_os.Fs.Find.{segments, resolve, resolve-one}
use hz_os.Fs.Tree.{start, fs_find-resolve}
use hz_os.Fs.RoundTrip.{IsSegment, segments-under, resolve-append, flush-segment}
use hz_os.FileBrowser.{
  Outcome, Row, child_row_at, nothing, goes, up_row, child_row, slash_at, parent_path, joined,
  into_dir, row_at, act, click_in, fb_on_click,
}

get_or-append_right : (xs ys : List ℕ) (k : ℕ) → get_or (xs ++ ys) (length xs + k) 0 ≡ get_or ys k 0
get_or-append_right [] ys k = ap (λ i. get_or ys i 0) (omega arith)
get_or-append_right (x ∷ xs) ys k =
    ap (λ i. get_or (x ∷ (xs ++ ys)) i 0) (the_next (length xs) k) ∙ get_or-append_right xs ys k
  where
    the_next : (a b : ℕ) → suc a + b ≡ suc (a + b)
    the_next a b = omega arith

no_slash : (n : List ℕ) (k : ℕ) → All (λ c. (c == b'/') ≡ false) n → (get_or n k 0 == b'/') ≡ false
no_slash [] k h = refl
no_slash (c ∷ cs) zero h = h.0
no_slash (c ∷ cs) (suc k) h = no_slash cs k h.1

slash_here :
    (path : List ℕ) (m : ℕ) → (get_or path (suc m) 0 == b'/') ≡ true → slash_at path (suc m) ≡ suc m
unfolding slash_at
slash_here path m e = rw e refl

slash_below :
    (path : List ℕ) (m : ℕ)
    → (get_or path (suc m) 0 == b'/') ≡ false
    → slash_at path (suc m) ≡ slash_at path m
unfolding slash_at
slash_below path m e = rw e refl

-- The last slash of a path is the one in front of its last segment.
slash_at-under :
    (p n : List ℕ) (k : ℕ)
    → All (λ c. (c == b'/') ≡ false) n
    → slash_at (p ++ (b'/' ∷ n)) (length p + k) ≡ length p
unfolding slash_at
slash_at-under [] n zero h = refl
slash_at-under (c ∷ p) n zero h =
    let path = (c ∷ p) ++ (b'/' ∷ n) in
    let index : length (c ∷ p) + 0 ≡ suc (length p) = omega arith in
    ap (slash_at path) index
    ∙ slash_here path (length p) (
        ap (λ i. get_or path i 0 == b'/') (sym index)
        ∙ ap (λ v. v == b'/') (get_or-append_right (c ∷ p) (b'/' ∷ n) 0))
slash_at-under p n (suc k) h =
    let path = p ++ (b'/' ∷ n) in
    let index : length p + suc k ≡ suc (length p + k) = omega arith in
    ap (slash_at path) index
    ∙ slash_below path (length p + k) (
        ap (λ i. get_or path i 0 == b'/') (sym index)
        ∙ ap (λ v. v == b'/') (get_or-append_right p (b'/' ∷ n) (suc k))
        ∙ no_slash n k h)
    ∙ slash_at-under p n k h

parent-under :
    (p n : List ℕ)
    → All (λ c. (c == b'/') ≡ false) n
    → parent_path (p ++ (b'/' ∷ n)) ≡ (if length p == 0 then b'/' ∷ [] else p)
unfolding parent_path
parent-under p n h =
    let len : length (p ++ (b'/' ∷ n)) ≡ length p + suc (length n) =
      omega (arith, length-append p (b'/' ∷ n)) in
    let at_slash : slash_at (p ++ (b'/' ∷ n)) (length (p ++ (b'/' ∷ n))) ≡ length p =
      ap (slash_at (p ++ (b'/' ∷ n))) len ∙ slash_at-under p n (suc (length n)) h in
    ap (λ l. if l == 0 then b'/' ∷ [] else take l (p ++ (b'/' ∷ n))) at_slash
    ∙ ap (λ t. if length p == 0 then b'/' ∷ [] else t) (take-append_length p (b'/' ∷ n))

-- The paths that the browser shows: from the root.
pub data IsAbsolute : List ℕ → Type 0 where
  at_root : IsAbsolute (b'/' ∷ [])
  below_root : (c : ℕ) (p : List ℕ) → IsAbsolute (b'/' ∷ c ∷ p)

parent-joined :
    (path n : List ℕ)
    → IsAbsolute path
    → All (λ c. (c == b'/') ≡ false) n
    → parent_path (joined path n) ≡ path
unfolding joined
parent-joined _ n at_root h = parent-under [] n h
parent-joined _ n (below_root c p) h =
    let path = b'/' ∷ c ∷ p in
    let long : ltb 1 (length path) ≡ true = ground arith in
    let some_char : (length path == 0) ≡ false = ground arith in
    if-true (λ q. parent_path q ≡ path) (path ++ n) long
      (parent-under path n h ∙ if-false (λ q. q ≡ path) (b'/' ∷ []) some_char refl)

-- The joined path leads where one step from the directory leads.
joined-step :
    (fs : Fs) (path n : List ℕ) {d : ℕ}
    → IsAbsolute path
    → IsSegment n
    → fs_find fs path ≡ some d
    → fs_find fs (joined path n) ≡ step fs.nodes d n
unfolding joined start resolve segments
joined-step fs _ n {d} at_root g e =
    let here : some fs.root ≡ some d = sym (fs_find-resolve fs (b'/' ∷ [])) ∙ e in
    let from : Option ℕ → Option ℕ = λ o. elim o [ none ↦ none | some x ↦ step fs.nodes x n ] in
    fs_find-resolve fs (b'/' ∷ n)
    ∙ ap (resolve fs.nodes fs.root) (segments-under [] [] n g.whole ∙ flush-segment n g.some_char)
    ∙ resolve-one fs.nodes fs.root n
    ∙ ap from here
joined-step fs _ n {d} (below_root c p) g e =
    let path = b'/' ∷ c ∷ p in
    let long : ltb 1 (length path) ≡ true = ground arith in
    if-true (λ q. fs_find fs q ≡ step fs.nodes d n) (path ++ n) long
      (fs_find-resolve fs (path ++ (b'/' ∷ n))
        ∙ ap (resolve fs.nodes fs.root) (
            segments-under [] path n g.whole
            ∙ ap (λ s. segments [] path ++ s) (flush-segment n g.some_char))
        ∙ resolve-append fs.nodes fs.root (segments [] path) (n ∷ [])
            (sym (fs_find-resolve fs path) ∙ e)
        ∙ resolve-one fs.nodes d n)

segment-step :
    (ns : List Node) (d : ℕ) (n : List ℕ) → IsSegment n → step ns d n ≡ find_in_dir ns d n
unfolding step
segment-step ns d n g = rw (g.not_dot_dot, g.not_dot) refl

click_row :
    (fs : Fs) (path : List ℕ) (y d : ℕ) (row : Option Row)
    → 24 ≤ y
    → fs_find fs path ≡ some d
    → is_dir (node_at fs.nodes d).kind ≡ true
    → row_at fs.nodes d ((y - 24) / 12) ≡ row
    → fb_on_click fs path (pos y) ≡ act fs.nodes path row
unfolding fb_on_click click_in
click_row fs path y d row le found kind e =
    let idx = (y - 24) / 12 in
    let goal = λ (o : Outcome). o ≡ act fs.nodes path row in
    if-false goal nothing (ground (arith, le))
      (ap (click_in fs path idx) found ∙ if-true goal nothing kind (ap (act fs.nodes path) e))

up_first : (ns : List Node) (e p : ℕ) → (node_at ns e).parent ≡ some p → row_at ns e 0 ≡ some up_row
unfolding row_at
up_first ns e p h =
    let first : Option ℕ → Option Row =
      λ o. elim o [ none ↦ child_row_at ns e 0 | some q ↦ some up_row ] in
    ap first h

-- In a window that shows a directory by a path from the root, a click on the row of a directory
-- whose name is a segment and fits into the path shows the path with that name behind it: it leads to
-- what find_in_dir finds under the name, and if that is a directory with a parent, a click on its
-- first row, "..", shows the path from before again.
pub click-back :
    (fs : Fs) (path : List ℕ) (y up_y d c e p : ℕ)
    → IsAbsolute path
    → fs_find fs path ≡ some d
    → is_dir (node_at fs.nodes d).kind ≡ true
    → 24 ≤ y
    → row_at fs.nodes d ((y - 24) / 12) ≡ some (child_row c)
    → is_dir (node_at fs.nodes c).kind ≡ true
    → IsSegment (node_at fs.nodes c).name
    → length path + 1 + length (node_at fs.nodes c).name < 255
    → find_in_dir fs.nodes d (node_at fs.nodes c).name ≡ some e
    → is_dir (node_at fs.nodes e).kind ≡ true
    → (node_at fs.nodes e).parent ≡ some p
    → 24 ≤ up_y
    → up_y < 36
    → let path' = joined path (node_at fs.nodes c).name in
      (fb_on_click fs path (pos y) ≡ goes path')
      × (fs_find fs path' ≡ some e)
      × (fb_on_click fs path' (pos up_y) ≡ goes path)
unfolding act into_dir
click-back fs path y up_y d c e p absolute found kind le row dir seg room child child_dir has_parent
      lo hi =
    let n = (node_at fs.nodes c).name in
    let path' = joined path n in
    let there : fs_find fs path' ≡ some e =
      joined-step fs path n absolute seg found ∙ segment-step fs.nodes d n seg ∙ child in
    let first_row : row_at fs.nodes e ((up_y - 24) / 12) ≡ some up_row =
      ap (row_at fs.nodes e) (omega arith) ∙ up_first fs.nodes e p has_parent in
    (
      click_row fs path y d (some (child_row c)) le found kind row
          ∙ if-true (λ o. o ≡ goes path') _ dir
              (if-true (λ q. goes q ≡ goes path') path (lt→ltb _ 255 room) refl),
      there,
      click_row fs path' up_y e (some up_row) lo there child_dir first_row
          ∙ ap goes (parent-joined path n absolute seg.whole),
    )
