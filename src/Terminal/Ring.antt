-- ===== src/Terminal/Ring.antt =====
-- The ring of captured characters of src/shell/terminal.c is a queue of 1023 characters.
use hz_os.Base.{
  ℕ, zero, suc, ◌+◌, ◌-◌, ◌%◌, ◌≤◌, ◌<◌, ◌≡◌, ◌≢◌, true, false, List, [], ◌∷◌, ◌++◌, if◌then◌else◌,
  ltb, leb, ◌==◌, ◌!=◌, get_or, set, drop, length, length-set, arith, refl, ap, ap₂, sym, ◌∙◌,
  subst, Bool-cases, inl, inr, append_assoc, append-nil, length-append, if-both,
}
use hz_os.Base.Int.{ℤ, negsuc}
use hz_os.Terminal.{
  Terminal, term_buf_size, capture, vesa_putc, vga_char, vga_putc, terminal_scroll, terminal_putc,
  terminal_write, terminal_get_char, char_to_int,
}

-- The `n` characters of the ring from index `i` on.
unfoldable pub ring_from : List ℕ → ℕ → ℕ → List ℕ
ring_from b i zero = []
ring_from b i (suc n) = get_or b i 0 ∷ ring_from b ((i + 1) % term_buf_size) n

-- How many characters are captured.
abbrev pub count : Terminal → ℕ
count t = (t.term_buf_head + term_buf_size - t.term_buf_tail) % term_buf_size

-- The captured characters, the oldest one first.
abbrev pub captured : Terminal → List ℕ
captured t = ring_from t.term_buffer t.term_buf_tail (count t)

pub record IsRing (t : Terminal) : Type 0 where
  pub size : length t.term_buffer ≡ term_buf_size
  pub head_in : t.term_buf_head < term_buf_size
  pub tail_in : t.term_buf_tail < term_buf_size

get_or-set_ne : (xs : List ℕ) (i j v : ℕ) → i ≢ j → get_or (set xs i v) j 0 ≡ get_or xs j 0
get_or-set_ne [] i j v h = refl
get_or-set_ne (x ∷ xs) zero zero v h = absurd (h refl)
get_or-set_ne (x ∷ xs) zero (suc j) v h = refl
get_or-set_ne (x ∷ xs) (suc i) zero v h = refl
get_or-set_ne (x ∷ xs) (suc i) (suc j) v h = get_or-set_ne xs i j v (λ e. h (ap suc e))

get_or-set_self : (xs : List ℕ) (i v : ℕ) → i < length xs → get_or (set xs i v) i 0 ≡ v
get_or-set_self [] i v h = elim h [ ]
get_or-set_self (x ∷ xs) zero v h = refl
get_or-set_self (x ∷ xs) (suc i) v h = get_or-set_self xs i v (omega arith)

length-ring_from : (b : List ℕ) (i n : ℕ) → length (ring_from b i n) ≡ n
unfolding ring_from
length-ring_from b i zero = refl
length-ring_from b i (suc n) = ap suc (length-ring_from b ((i + 1) % term_buf_size) n)

-- A write at the index behind the `n` characters leaves them alone.
ring_from-set :
    (b : List ℕ) (h c i n : ℕ)
    → i < term_buf_size
    → n < term_buf_size
    → h ≡ (i + n) % term_buf_size
    → ring_from (set b h c) i n ≡ ring_from b i n
unfolding ring_from
ring_from-set b h c i zero lt room e = refl
ring_from-set b h c i (suc n) lt room e =
    ap₂ (λ x xs. x ∷ xs) (get_or-set_ne b h i c (omega arith))
      (ring_from-set b h c ((i + 1) % term_buf_size) n (omega arith) (omega arith) (omega arith))

-- The characters and the one behind them.
ring_from-snoc :
    (b : List ℕ) (i n : ℕ)
    → i < term_buf_size
    → ring_from b i (suc n) ≡ ring_from b i n ++ (get_or b ((i + n) % term_buf_size) 0 ∷ [])
unfolding ring_from
ring_from-snoc b i zero lt = ap (λ j. get_or b j 0 ∷ []) (omega arith)
ring_from-snoc b i (suc n) lt =
    ap (λ xs. get_or b i 0 ∷ xs)
      (ring_from-snoc b ((i + 1) % term_buf_size) n (omega arith)
        ∙ ap (λ j. ring_from b ((i + 1) % term_buf_size) n ++ (get_or b j 0 ∷ [])) (omega arith))

-- A queue of at most 1023 characters, which drops what does not fit.
unfoldable pub enqueue : List ℕ → ℕ → List ℕ
enqueue q c = if ltb (length q) 1023 then q ++ (c ∷ []) else q

enqueue-room : (q : List ℕ) (c : ℕ) → length q < 1023 → enqueue q c ≡ q ++ (c ∷ [])
unfolding enqueue
enqueue-room q c lt = let e : ltb (length q) 1023 ≡ true = ground (arith, lt) in rw e refl

enqueue-full : (q : List ℕ) (c : ℕ) → length q ≡ 1023 → enqueue q c ≡ q
unfolding enqueue
enqueue-full q c eq = let e : ltb (length q) 1023 ≡ false = ground (arith, eq) in rw e refl

captured-count : (t : Terminal) → length (captured t) ≡ count t
captured-count t = length-ring_from t.term_buffer t.term_buf_tail (count t)

captured-capture :
    (t : Terminal) (c : ℕ) → IsRing t → captured (capture t c) ≡ enqueue (captured t) c
unfolding capture
captured-capture t c r =
    elim (Bool-cases ((t.term_buf_head + 1) % term_buf_size != t.term_buf_tail)) [
      | inl e ↦
          let room : count t < 1023 = ground (arith, e, r.head_in, r.tail_in) in
          let more : ((t.term_buf_head + 1) % term_buf_size + term_buf_size - t.term_buf_tail)
                % term_buf_size
              ≡ suc (count t) =
            ground (arith, e, r.head_in, r.tail_in) in
          let at_head : (t.term_buf_tail + count t) % term_buf_size ≡ t.term_buf_head =
            omega (arith, r.head_in, r.tail_in) in
          let b : List ℕ = set t.term_buffer t.term_buf_head c in
          rw e (
            ap (λ n. ring_from b t.term_buf_tail n) more
            ∙ ring_from-snoc b t.term_buf_tail (count t) r.tail_in
            ∙ ap₂ (λ xs x. xs ++ (x ∷ []))
                (ring_from-set t.term_buffer t.term_buf_head c t.term_buf_tail (count t) r.tail_in
                  (omega (arith, room)) (sym at_head))
                (ap (λ j. get_or b j 0) at_head
                  ∙ get_or-set_self t.term_buffer t.term_buf_head c
                      (omega (arith, r.size, r.head_in)))
            ∙ sym (enqueue-room (captured t) c (omega (arith, room, captured-count t))))
      | inr e ↦
          let full : count t ≡ 1023 = ground (arith, e, r.head_in, r.tail_in) in
          rw e (sym (enqueue-full (captured t) c (captured-count t ∙ full)))
    ]

-- The rings of two terminals are the same.
abbrev SameRing : Terminal → Terminal → Type 0
SameRing t u =
    (u.term_buffer ≡ t.term_buffer)
    × (u.term_buf_head ≡ t.term_buf_head)
    × (u.term_buf_tail ≡ t.term_buf_tail)

vga_char-SameRing : (t : Terminal) (c : ℕ) → SameRing t (vga_char t c)
unfolding vga_char
vga_char-SameRing t c = ground arith

vga_putc-SameRing : (t : Terminal) (c : ℕ) → SameRing t (vga_putc t c)
unfolding vga_putc terminal_scroll
vga_putc-SameRing t c =
    if-both (λ u. SameRing t u) (leb 25 (vga_char t c).terminal_row) (vga_char-SameRing t c)
      (vga_char-SameRing t c)

vesa_putc-SameRing : (t : Terminal) (c : ℕ) → SameRing t (vesa_putc t c)
unfolding vesa_putc
vesa_putc-SameRing t c = ground arith

-- The ring holds the queue `q`.
pub record HoldsQueue (t : Terminal) (q : List ℕ) : Type 0 where
  pub ring : IsRing t
  pub queue : captured t ≡ q

SameRing-HoldsQueue : {t u : Terminal} {q : List ℕ} → SameRing t u → HoldsQueue t q → HoldsQueue u q
SameRing-HoldsQueue {t} {u} s h = record {
  ring = record {
    size = ap length s.0 ∙ h.ring.size;
    head_in = ground (arith, s.1, h.ring.head_in);
    tail_in = ground (arith, s.2, h.ring.tail_in);
  };
  queue =
      ap₂ (λ b n. ring_from b u.term_buf_tail n) s.0
        (ap₂ (λ x y. (x + term_buf_size - y) % term_buf_size) s.1 s.2)
      ∙ ap (λ i. ring_from t.term_buffer i (count t)) s.2
      ∙ h.queue;
}

capture-HoldsQueue :
    (t : Terminal) (c : ℕ) {q : List ℕ} → HoldsQueue t q → HoldsQueue (capture t c) (enqueue q c)
capture-HoldsQueue t c h = record {
  ring = record {
    size = unfold capture in grind (arith, h.ring.size, length-set);
    head_in = unfold capture in ground (arith, h.ring.head_in);
    tail_in = unfold capture in ground (arith, h.ring.tail_in);
  };
  queue = captured-capture t c h.ring ∙ ap (λ p. enqueue p c) h.queue;
}

-- A character written to the terminal is put at the end of the queue of captured characters, whether
-- there is a sink, a framebuffer or neither, and is dropped from it if it holds 1023.
pub putc-HoldsQueue :
    (t : Terminal) (c : ℕ) {q : List ℕ}
    → HoldsQueue t q
    → HoldsQueue (terminal_putc t c) (enqueue q c)
unfolding terminal_putc
putc-HoldsQueue t c {q} h =
    let P : Terminal → Type 0 = λ u. HoldsQueue u (enqueue q c) in
    if-both P t.has_sink
      (capture-HoldsQueue (record t { sent = t.sent ++ (c ∷ []) }) c
        (SameRing-HoldsQueue {t = t} (refl, refl, refl) h))
      (if-both P t.has_vesa
        (SameRing-HoldsQueue (vesa_putc-SameRing (capture t c) c) (capture-HoldsQueue t c h))
        (SameRing-HoldsQueue (vga_putc-SameRing (capture t c) c) (capture-HoldsQueue t c h)))

-- From an empty queue, terminal_get_char returns -1 and changes nothing.
pub get_char-empty : (t : Terminal) → HoldsQueue t [] → terminal_get_char t ≡ (negsuc 0, t)
unfolding terminal_get_char
get_char-empty t h =
    let none_left : count t ≡ 0 = sym (captured-count t) ∙ ap length h.queue in
    let e : (t.term_buf_head == t.term_buf_tail) ≡ true =
      ground (arith, none_left, h.ring.head_in, h.ring.tail_in) in
    rw e refl

-- From a queue that is not empty, terminal_get_char takes the oldest character, as a signed `char`.
pub get_char-front :
    (t : Terminal) (c : ℕ) (q : List ℕ)
    → HoldsQueue t (c ∷ q)
    → ((terminal_get_char t).0 ≡ char_to_int c) × HoldsQueue (terminal_get_char t).1 q
unfolding terminal_get_char
get_char-front t c q h =
    let some_left : count t ≡ suc (length q) = sym (captured-count t) ∙ ap length h.queue in
    let e : (t.term_buf_head == t.term_buf_tail) ≡ false =
      ground (arith, some_left, h.ring.head_in, h.ring.tail_in) in
    let less : (t.term_buf_head + term_buf_size - (t.term_buf_tail + 1) % term_buf_size)
          % term_buf_size
        ≡ length q =
      omega (arith, some_left, h.ring.head_in, h.ring.tail_in) in
    let front : get_or t.term_buffer t.term_buf_tail 0
          ∷ ring_from t.term_buffer ((t.term_buf_tail + 1) % term_buf_size) (length q)
        ≡ c ∷ q =
      unfold ring_from in
      ap (λ n. ring_from t.term_buffer t.term_buf_tail n) (sym some_left) ∙ h.queue in
    rw e (
      ap (λ xs. char_to_int (get_or xs 0 0)) front,
      record {
        ring = record { size = h.ring.size; head_in = h.ring.head_in; tail_in = omega arith };
        queue =
            ap (λ n. ring_from t.term_buffer ((t.term_buf_tail + 1) % term_buf_size) n) less
            ∙ ap (λ xs. drop 1 xs) front;
      },
    )

-- What `n` calls of terminal_get_char return.
unfoldable pub drain : ℕ → Terminal → List ℤ
drain zero t = []
drain (suc n) t = (terminal_get_char t).0 ∷ drain n (terminal_get_char t).1

unfoldable pub chars_to_ints : List ℕ → List ℤ
chars_to_ints [] = []
chars_to_ints (c ∷ cs) = char_to_int c ∷ chars_to_ints cs

drain-queue : (t : Terminal) (q : List ℕ) → HoldsQueue t q → drain (length q) t ≡ chars_to_ints q
unfolding drain chars_to_ints
drain-queue t [] h = refl
drain-queue t (c ∷ q) h =
    let (first, rest) = get_char-front t c q h in
    ap₂ (λ x xs. x ∷ xs) first (drain-queue (terminal_get_char t).1 q rest)

write-HoldsQueue :
    (t : Terminal) (q str : List ℕ)
    → HoldsQueue t q
    → length q + length str ≤ 1023
    → HoldsQueue (terminal_write t str) (q ++ str)
unfolding terminal_write
write-HoldsQueue t q [] h room = subst (λ p. HoldsQueue t p) (sym (append-nil q)) h
write-HoldsQueue t q (c ∷ cs) h room =
    let next : HoldsQueue (terminal_putc t c) (q ++ (c ∷ [])) =
      subst (λ p. HoldsQueue (terminal_putc t c) p) (enqueue-room q c (omega arith))
        (putc-HoldsQueue t c h) in
    subst (λ p. HoldsQueue (terminal_write (terminal_putc t c) cs) p) (append_assoc q (c ∷ []) cs)
      (write-HoldsQueue (terminal_putc t c) (q ++ (c ∷ [])) cs next
        (omega (arith, room, length-append q (c ∷ []))))

-- A string of at most 1023 characters written while the queue is empty is read back, character by
-- character as signed values, by as many calls of terminal_get_char.
pub write-drain :
    (t : Terminal) (str : List ℕ)
    → HoldsQueue t []
    → length str ≤ 1023
    → drain (length str) (terminal_write t str) ≡ chars_to_ints str
write-drain t str h room =
    drain-queue (terminal_write t str) str (write-HoldsQueue t [] str h (omega (arith, room)))

-- The character 255 is returned as -1 and cannot be told from an empty queue.
pub get_char-ambiguous :
    (t : Terminal) (q : List ℕ)
    → HoldsQueue t (255 ∷ q)
    → (u : Terminal) → HoldsQueue u []
    → (terminal_get_char t).0 ≡ (terminal_get_char u).0
get_char-ambiguous t q h u hu =
    (get_char-front t 255 q h).0 ∙ ap (λ (p : ℤ × Terminal). p.0) (sym (get_char-empty u hu))
