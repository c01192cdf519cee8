-- ===== src/Keyboard/Line.antt =====
-- The line that the keyboard driver of src/drivers/keyboard.c collects.
use hz_os.Base.{
  ℕ, zero, suc, ◌+◌, ◌-◌, ◌≤◌, ◌<◌, ◌≡◌, ◌≢◌, true, false, List, [], ◌∷◌, ◌++◌, if◌then◌else◌, ltb,
  ◌==◌, set, take, length, length-set, arith, refl, ap, ap₂, sym, ◌∙◌, All, append-nil,
  append_assoc, length-append, Bool-cases, inl, inr, if-both,
}
use hz_os.Keyboard.{
  Keyboard, Call, wm_handle_key, terminal_putc, command_execute, prompt, keyboard_buffer_size,
  decode, line, keyboard_handle_command, deliver, handle_char, keyboard_irq_handler,
}

-- The line and its final NUL fit the buffer.
pub record HasRoom (k : Keyboard) : Type 0 where
  pub size : length k.input_buffer ≡ keyboard_buffer_size
  pub len_in : k.input_len < keyboard_buffer_size

deliver-HasRoom : (k : Keyboard) (c : ℕ) → HasRoom k → HasRoom (deliver k c).1
unfolding deliver
deliver-HasRoom k c h = record {
  size = grind (arith, h.size, length-set);
  len_in = ground (arith, h.len_in);
}

handle_char-HasRoom : (k : Keyboard) (c : ℕ) → HasRoom k → HasRoom (handle_char k c).1
unfolding handle_char
handle_char-HasRoom k c h =
    let P : List Call × Keyboard → Type 0 = λ r. HasRoom r.1 in
    if-both P (c == 0) h (if-both P k.has_callback h (deliver-HasRoom k c h))

decode-HasRoom : (k : Keyboard) (scancode : ℕ) → HasRoom k → HasRoom (decode k scancode).1
unfolding decode
decode-HasRoom k scancode h = record {
  size = ground (arith, h.size);
  len_in = ground (arith, h.len_in);
}

-- Whatever scan code arrives, the line and its final NUL stay inside the buffer of 128 characters.
pub irq-HasRoom :
    (k : Keyboard) (scancode : ℕ) → HasRoom k → HasRoom (keyboard_irq_handler k scancode).1
unfolding keyboard_irq_handler
irq-HasRoom k scancode h =
    handle_char-HasRoom (decode k scancode).1 (decode k scancode).0 (decode-HasRoom k scancode h)

-- A list without its last element.
unfoldable pub but_last : List ℕ → List ℕ
but_last [] = []
but_last (x ∷ []) = []
but_last (x ∷ y ∷ xs) = x ∷ but_last (y ∷ xs)

-- What a character does to a line.
unfoldable pub edit : List ℕ → ℕ → List ℕ
edit l c =
    if c == 10
    then []
    else if c == 8
    then but_last l
    else if ltb (length l) 127
    then l ++ (c ∷ [])
    else l

take-set :
    (xs : List ℕ) (n v : ℕ) → n < length xs → take (n + 1) (set xs n v) ≡ take n xs ++ (v ∷ [])
take-set xs n v h = ap (λ m. take m (set xs n v)) one ∙ go xs n h
  where
    one : n + 1 ≡ suc n
    one = omega arith

    go : (xs : List ℕ) (n : ℕ) → n < length xs → take (suc n) (set xs n v) ≡ take n xs ++ (v ∷ [])
    go [] n h = elim h [ ]
    go (x ∷ xs) zero h = refl
    go (x ∷ xs) (suc n) h = ap (λ t. x ∷ t) (go xs n (omega arith))

but_last-take : (xs : List ℕ) (n : ℕ) → n < length xs → but_last (take (suc n) xs) ≡ take n xs
unfolding but_last
but_last-take [] n h = elim h [ ]
but_last-take (x ∷ xs) zero h = refl
but_last-take (x ∷ []) (suc n) h = absurd (omega arith)
but_last-take (x ∷ y ∷ xs) (suc n) h = ap (λ t. x ∷ t) (but_last-take (y ∷ xs) n (omega arith))

length-line : (k : Keyboard) → HasRoom k → length (line k) ≡ k.input_len
length-line k h = go k.input_buffer k.input_len (omega (arith, h.size, h.len_in))
  where
    go : (xs : List ℕ) (n : ℕ) → n ≤ length xs → length (take n xs) ≡ n
    go xs zero h = refl
    go [] (suc n) h = absurd (omega arith)
    go (x ∷ xs) (suc n) h = ap suc (go xs n (omega arith))

-- What a character calls, where `l` is the line.
unfoldable pub calls : List ℕ → ℕ → List Call
calls l c =
    if c == 10
    then wm_handle_key c ∷ terminal_putc 10 ∷ (if length l == 0 then [] else command_execute l ∷ [])
      ++ (prompt ∷ [])
    else if c == 8
    then (if ltb 0 (length l) then wm_handle_key c ∷ terminal_putc 8 ∷ [] else wm_handle_key c ∷ [])
    else wm_handle_key c ∷ []

take-set_same : (xs : List ℕ) (n v : ℕ) → take n (set xs n v) ≡ take n xs
take-set_same [] zero v = refl
take-set_same [] (suc n) v = refl
take-set_same (x ∷ xs) zero v = refl
take-set_same (x ∷ xs) (suc n) v = ap (λ t. x ∷ t) (take-set_same xs n v)

but_last-line :
    (k : Keyboard) → HasRoom k → take (k.input_len - 1) k.input_buffer ≡ but_last (line k)
but_last-line k h = go k.input_buffer k.input_len (omega (arith, h.size, h.len_in))
  where
    go : (xs : List ℕ) (n : ℕ) → n ≤ length xs → take (n - 1) xs ≡ but_last (take n xs)
    go xs zero le = unfold but_last in refl
    go xs (suc n) le =
        let same : suc n - 1 ≡ n = omega arith in
        ap (λ m. take m xs) same ∙ sym (but_last-take xs n (omega arith))

-- Where the line and its NUL fit the buffer of 128 characters, the driver's buffer behaves as a
-- line of at most 127 characters, and calls what such a line does: a character is put at its end, a
-- backspace takes the last one away, and a newline hands the line, if it is not empty, to
-- command_execute and starts an empty one.
pub deliver-edit :
    (k : Keyboard) (c : ℕ)
    → HasRoom k
    → (line (deliver k c).1 ≡ edit (line k) c) × ((deliver k c).0 ≡ calls (line k) c)
unfolding deliver edit calls
deliver-edit k c h = elim (Bool-cases (c == 10)) [
  | inl e ↦ rw e (
    refl,
    ap (λ xs. wm_handle_key c ∷ terminal_putc 10 ∷ xs ++ (prompt ∷ []))
        (unfold keyboard_handle_command in
          ap₂ (λ n l. if n == 0 then [] else command_execute l ∷ []) (sym (length-line k h))
            (take-set_same k.input_buffer k.input_len 0)),
  )
  | inr e ↦ elim (Bool-cases (c == 8)) [
    | inl b ↦ elim (Bool-cases (ltb 0 k.input_len)) [
      | inl p ↦
          let q = ap (λ n. ltb 0 n) (length-line k h) ∙ p in
          rw (e, b, p) (but_last-line k h, rw q refl)
      | inr p ↦
          let q = ap (λ n. ltb 0 n) (length-line k h) ∙ p in
          let none_left : k.input_len ≡ k.input_len - 1 = ground (arith, p) in
          rw (e, b, p) (ap (λ n. take n k.input_buffer) none_left ∙ but_last-line k h, rw q refl)
    ]
    | inr b ↦ elim (Bool-cases (ltb k.input_len 127)) [
      | inl p ↦
          let q = ap (λ n. ltb n 127) (length-line k h) ∙ p in
          rw (e, b, p)
            (rw q (take-set k.input_buffer k.input_len c (omega (arith, h.size, h.len_in))), refl)
      | inr p ↦ let q = ap (λ n. ltb n 127) (length-line k h) ∙ p in rw (e, b, p) (rw q refl, refl)
    ]
  ]
]

-- The driver after several characters.
unfoldable pub types : Keyboard → List ℕ → Keyboard
types k [] = k
types k (c ∷ cs) = types (deliver k c).1 cs

abbrev pub Plain : ℕ → Type 0
Plain c = (c ≢ 10) × (c ≢ 8)

edit-Plain : (l : List ℕ) (c : ℕ) → Plain c → length l < 127 → edit l c ≡ l ++ (c ∷ [])
unfolding edit
edit-Plain l c p lt =
    let not_newline : (c == 10) ≡ false = ground (arith, p.0) in
    let not_back : (c == 8) ≡ false = ground (arith, p.1) in
    let room : ltb (length l) 127 ≡ true = ground (arith, lt) in
    rw (not_newline, not_back, room) refl

types-line :
    (k : Keyboard) (cs : List ℕ)
    → HasRoom k
    → All Plain cs
    → length (line k) + length cs ≤ 127
    → (line (types k cs) ≡ line k ++ cs) × HasRoom (types k cs)
unfolding types
types-line k [] h p fits = (sym (append-nil (line k)), h)
types-line k (c ∷ cs) h p fits =
    let step = (deliver-edit k c h).0 ∙ edit-Plain (line k) c p.0 (omega (arith, fits)) in
    let (rest, room) =
      types-line (deliver k c).1 cs (deliver-HasRoom k c h) p.1
        (omega (arith, fits, ap length step, length-append (line k) (c ∷ []))) in
    (rest ∙ ap (λ l. l ++ cs) step ∙ append_assoc (line k) (c ∷ []) cs, room)

-- One to 127 characters, none of them a newline or a backspace, typed on an empty line and followed
-- by a newline are handed to command_execute as they were typed, and the prompt is written.
pub types-executes :
    (k : Keyboard) (c : ℕ) (cs : List ℕ)
    → HasRoom k
    → k.input_len ≡ 0
    → All Plain (c ∷ cs)
    → length (c ∷ cs) ≤ 127
    → (deliver (types k (c ∷ cs)) 10).0
      ≡ wm_handle_key 10 ∷ terminal_putc 10 ∷ command_execute (c ∷ cs) ∷ prompt ∷ []
types-executes k c cs h empty p fits =
    let start : line k ≡ [] = ap (λ n. take n k.input_buffer) empty in
    let (typed, room) = types-line k (c ∷ cs) h p (omega (arith, fits, ap length start)) in
    (deliver-edit (types k (c ∷ cs)) 10 room).1
    ∙ ap (λ l. calls l 10) (typed ∙ ap (λ l. l ++ (c ∷ cs)) start)
    ∙ unfold calls in rw some_left refl
  where
    some_left : (length (c ∷ cs) == 0) ≡ false
    some_left = ground arith
