-- ===== src/Syscall/Calls.antt =====
-- Programs and their system calls, src/core/syscall.c.
use hz_os.Base.{
  ℕ, zero, suc, ◌+◌, ◌%◌, ◌≤◌, ◌<◌, ◌≡◌, ◌≢◌, true, false, not, Option, none, some, List, [], ◌∷◌,
  length, get_or, set, ◌==◌, arith, refl, ap, ◌∙◌, sym, get_or-modify_self, get_or-set_at,
  length-modify, ==_of_ne,
}
use hz_os.Base.Int.{ℤ, pos}
use hz_os.Terminal.{terminal_write, terminal_get_char}
use hz_os.Terminal.Ring.{HoldsQueue, drain, write-drain, chars_to_ints}
use hz_os.WindowManager.{
  Wm, Window, HzEvent, key, wm_magic, window_at, event_queue_size, push, wm_push_event, no_event,
  null_window,
}
use hz_os.WindowManager.Desktop.{
  Desktop, nothing, event, event_poll, wm_handle_key, key_to, drop_event, change,
}
use hz_os.Syscall.{System, Answer, write, get_char, number, syscall_handler}

-- The answers to n calls of get_char.
unfoldable pub get_chars : ℕ → System → (List ℕ → Option (List ℕ)) → List Answer
get_chars zero sys ext2 = []
get_chars (suc n) sys ext2 = elim (syscall_handler sys ext2 get_char) [
  | none ↦ []
  | some (answer, sys') ↦ answer ∷ get_chars n sys' ext2
]

abbrev pub numbers : List ℤ → List Answer
numbers [] = []
numbers (c ∷ cs) = number c ∷ numbers cs

get_chars-drain :
    (n : ℕ) (sys : System) (ext2 : List ℕ → Option (List ℕ))
    → get_chars n sys ext2 ≡ numbers (drain n sys.terminal)
unfolding get_chars drain syscall_handler
get_chars-drain zero sys ext2 = refl
get_chars-drain (suc n) sys ext2 =
    ap (λ cs. number (terminal_get_char sys.terminal).0 ∷ cs)
      (get_chars-drain n (record sys { terminal = (terminal_get_char sys.terminal).1 }) ext2)

-- A program that writes at most 1023 bytes to the descriptor 1 while no captured character
-- waits is told their number, and as many calls of get_char give it the same bytes as signed values.
pub write-get_chars :
    (sys : System) (ext2 : List ℕ → Option (List ℕ)) (buf : List ℕ)
    → HoldsQueue sys.terminal []
    → length buf ≤ 1023
    → (sys' : System) × (syscall_handler sys ext2 (write (pos 1) buf)
        ≡ some (number (pos (length buf)), sys'))
      × (get_chars (length buf) sys' ext2 ≡ numbers (chars_to_ints buf))
unfolding syscall_handler
write-get_chars sys ext2 buf h room =
    let sys' = record sys { terminal = terminal_write sys.terminal buf } in
    (
      sys',
      refl,
      get_chars-drain (length buf) sys' ext2 ∙ ap numbers (write-drain sys.terminal buf h room),
    )

-- A handle is NULL, or the window behind it has lost its magic number.
abbrev pub Gone : Wm → Option ℕ → Type 0
Gone wm none = Unit
Gone wm (some w) = (window_at wm w).magic ≢ wm_magic

key_to-pushed :
    (d : Desktop) (win c : ℕ)
    → (window_at d.wm win).minimized ≡ false
    → (window_at d.wm win).is_userland ≡ true
    → (key_to d c win).wm ≡ wm_push_event d.wm win (key c)
key_to-pushed d win c shown user = rw (shown, user) refl

key-pushed :
    (d : Desktop) (win : ℕ) (rest : List ℕ) (c : ℕ)
    → d.wm.windows ≡ win ∷ rest
    → (window_at d.wm win).minimized ≡ false
    → (window_at d.wm win).is_userland ≡ true
    → (wm_handle_key d c).wm ≡ wm_push_event d.wm win (key c)
unfolding wm_handle_key
key-pushed d win rest c e shown user =
    let first : List ℕ → Desktop = λ ws. elim ws [ [] ↦ d | x ∷ xs ↦ key_to d c x ] in
    ap (λ ws. (first ws).wm) e ∙ key_to-pushed d win c shown user

push-empty :
    (w : Window) (ev : HzEvent)
    → w.event_head < event_queue_size
    → w.event_tail ≡ w.event_head
    → push w ev ≡ record w {
      event_queue = set w.event_queue w.event_head ev;
      event_head = (w.event_head + 1) % event_queue_size;
    }
unfolding push
push-empty w ev head empty =
    let room : ((w.event_head + 1) % event_queue_size == w.event_tail) ≡ false =
      ground (arith, head, empty) in
    rw (room, push) refl

poll-event :
    (wm : Wm) (win : ℕ)
    → (window_at wm win).magic ≡ wm_magic
    → (window_at wm win).event_head ≢ (window_at wm win).event_tail
    → event_poll wm win ≡ (
      event (get_or (window_at wm win).event_queue (window_at wm win).event_tail no_event),
      change wm win drop_event,
    )
unfolding event_poll
poll-event wm win magic some_event =
    let w = window_at wm win in
    let valid : not (w.magic == wm_magic) ≡ false = ground (arith, magic) in
    let waits = ==_of_ne w.event_head w.event_tail some_event in rw (valid, event_poll, waits) refl

poll-nothing :
    (wm : Wm) (win : ℕ)
    → (window_at wm win).magic ≡ wm_magic
    → (window_at wm win).event_head ≡ (window_at wm win).event_tail
    → (event_poll wm win).0 ≡ nothing
unfolding event_poll
poll-nothing wm win magic empty =
    let w = window_at wm win in
    let valid : not (w.magic == wm_magic) ≡ false = ground (arith, magic) in
    let none_waits : (w.event_head == w.event_tail) ≡ true = ground (arith, empty) in
    rw (valid, event_poll, none_waits) refl

-- A key that is typed while the first window of the list is a program's, is not minimized and has
-- no event waiting is the next event that the program polls, and then none is left.
pub key-polled :
    (d : Desktop) (win : ℕ) (rest : List ℕ) (c : ℕ)
    → d.wm.windows ≡ win ∷ rest
    → win < length d.wm.objects
    → (window_at d.wm win).magic ≡ wm_magic
    → (window_at d.wm win).minimized ≡ false
    → (window_at d.wm win).is_userland ≡ true
    → length (window_at d.wm win).event_queue ≡ event_queue_size
    → (window_at d.wm win).event_head < event_queue_size
    → (window_at d.wm win).event_tail ≡ (window_at d.wm win).event_head
    → let (p, wm') = event_poll (wm_handle_key d c).wm win in
      (p ≡ event (key c)) × ((event_poll wm' win).0 ≡ nothing)
key-polled d win rest c e lt magic shown user size head empty =
    let w = window_at d.wm win in
    let wm1 = wm_push_event d.wm win (key c) in
    let pushed = key-pushed d win rest c e shown user in
    let at : window_at wm1 win ≡ record w {
      event_queue = set w.event_queue w.event_head (key c);
      event_head = (w.event_head + 1) % event_queue_size;
    } =
      get_or-modify_self d.wm.objects win (λ v. push v (key c)) null_window lt
      ∙ push-empty w (key c) head empty in
    let differ : (window_at wm1 win).event_head ≢ (window_at wm1 win).event_tail = λ z. ground (
      arith,
      head,
      empty,
      sym (ap (λ (v : Window). v.event_head) at) ∙ z ∙ ap (λ (v : Window). v.event_tail) at,
    ) in
    let found = poll-event wm1 win (ap (λ (v : Window). v.magic) at ∙ magic) differ in
    let dropped =
      get_or-modify_self wm1.objects win drop_event null_window
        (omega (arith, lt, length-modify d.wm.objects win (λ v. push v (key c)))) in
    let wm2 = change wm1 win drop_event in
    let last =
      poll-nothing wm2 win
        (ap (λ (v : Window). v.magic) dropped ∙ ap (λ (v : Window). v.magic) at ∙ magic)
        (ap (λ (v : Window). v.event_head) dropped
          ∙ ap (λ (v : Window). v.event_head) at
          ∙ ap (λ h. (h + 1) % event_queue_size) (sym empty)
          ∙ sym (ap (λ (v : Window). (v.event_tail + 1) % event_queue_size) at)
          ∙ sym (ap (λ (v : Window). v.event_tail) dropped)) in
    let value : get_or (window_at wm1 win).event_queue (window_at wm1 win).event_tail no_event
        ≡ key c =
      ap (λ (v : Window). get_or v.event_queue v.event_tail no_event) at
      ∙ ap (λ i. get_or (set w.event_queue w.event_head (key c)) i no_event) empty
      ∙ get_or-set_at w.event_queue w.event_head (key c) no_event (omega (arith, size, head)) in
    (
      ap (λ (v : Wm). (event_poll v win).0) pushed ∙ ap (λ p. p.0) found ∙ ap event value,
      ap (λ (v : Wm). (event_poll (event_poll v win).1 win).0) pushed
          ∙ ap (λ (v : Wm). (event_poll v win).0) (ap (λ p. p.1) found)
          ∙ last,
    )
