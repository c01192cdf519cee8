-- ===== src/Process/Pick.antt =====
-- Which process scheduler_schedule of src/core/process.c resumes.
use hz_os.Base.{
  ℕ, zero, suc, ◌+◌, ◌-◌, ◌%◌, ◌≤◌, ◌<◌, ◌≡◌, ◌≢◌, ◌⊎◌, inl, inr, true, false, Option, none, some,
  List, [], ◌∷◌, ◌==◌, arith, refl, ap, sym, subst, dec_le, ◌∙◌, Bool-cases, length, ℕ_discrete,
}
use hz_os.Process.{
  Process, running, Kernel, max_processes, is_runnable, update, process_at, next_runnable, dispatch,
  scheduler_schedule,
}

pub length-update :
    (ps : List Process) (i : ℕ) (f : Process → Process) → length (update ps i f) ≡ length ps
unfolding update
length-update [] i f = refl
length-update (p ∷ ps) zero f = refl
length-update (p ∷ ps) (suc i) f = ap suc (length-update ps i f)

pub process_at-update_self :
    (ps : List Process) (i : ℕ) (f : Process → Process)
    → i < length ps
    → process_at (update ps i f) i ≡ f (process_at ps i)
unfolding update
process_at-update_self [] i f h = elim h [ ]
process_at-update_self (p ∷ ps) zero f h = refl
process_at-update_self (p ∷ ps) (suc i) f h = process_at-update_self ps i f (omega arith)

pub process_at-update_ne :
    (ps : List Process) (i j : ℕ) (f : Process → Process)
    → i ≢ j
    → process_at (update ps i f) j ≡ process_at ps j
unfolding update
process_at-update_ne [] i j f h = refl
process_at-update_ne (p ∷ ps) zero zero f h = absurd (h refl)
process_at-update_ne (p ∷ ps) zero (suc j) f h = refl
process_at-update_ne (p ∷ ps) (suc i) zero f h = refl
process_at-update_ne (p ∷ ps) (suc i) (suc j) f h =
    process_at-update_ne ps i j f (λ e. h (ap suc e))

abbrev pub Runnable : List Process → ℕ → Type 0
Runnable ps i = is_runnable (process_at ps i) ≡ true

-- `j` is the first runnable index on the way round from `cur`, `dist` steps on.
pub record Nearest (ps : List Process) (cur from rounds j : ℕ) : Type 0 where
  pub dist : ℕ
  pub least : from ≤ dist
  pub within : dist < from + rounds
  pub place : j ≡ (cur + dist) % max_processes
  pub can_run : Runnable ps j
  pub passed :
      (m : ℕ)
      → from ≤ m
      → m < dist
      → is_runnable (process_at ps ((cur + m) % max_processes)) ≡ false

pub next_runnable-Nearest :
    (ps : List Process) (cur from rounds : ℕ) {j : ℕ}
    → next_runnable ps cur from rounds ≡ some j
    → Nearest ps cur from rounds j
unfolding next_runnable
next_runnable-Nearest ps cur from zero e = absurd (cc)
next_runnable-Nearest ps cur from (suc rounds) {j} e =
    elim (Bool-cases (is_runnable (process_at ps ((cur + from) % max_processes)))) [
      | inl hit ↦
          let same : j ≡ (cur + from) % max_processes = ground (arith, rw hit at e) in
          record {
            dist = from;
            least = omega arith;
            within = omega arith;
            place = same;
            can_run = rw same hit;
            passed = λ m lo hi. absurd (omega arith);
          }
      | inr miss ↦
          let n = next_runnable-Nearest ps cur (from + 1) rounds (rw miss at e) in
          record {
            dist = n.dist;
            least = omega (arith, n.least);
            within = omega (arith, n.within);
            place = n.place;
            can_run = n.can_run;
            passed = λ m lo hi. elim (ℕ_discrete m from) [
              | yes e' ↦ rw e' miss
              | no ne ↦ n.passed m (omega arith) hi
            ];
          }
    ]

pub next_runnable-none :
    (ps : List Process) (cur from rounds : ℕ)
    → next_runnable ps cur from rounds ≡ none
    → (m : ℕ) → from ≤ m
    → m < from + rounds
    → is_runnable (process_at ps ((cur + m) % max_processes)) ≡ false
unfolding next_runnable
next_runnable-none ps cur from zero e m lo hi = absurd (omega arith)
next_runnable-none ps cur from (suc rounds) e m lo hi =
    elim (Bool-cases (is_runnable (process_at ps ((cur + from) % max_processes)))) [
      | inl hit ↦ absurd (ground (arith, rw hit at e))
      | inr miss ↦ elim (ℕ_discrete m from) [
        | yes e' ↦ rw e' miss
        | no ne ↦
            next_runnable-none ps cur (from + 1) rounds (rw miss at e) m (omega arith) (omega arith)
      ]
    ]

-- Saving the frame of the current process changes no state.
runnable-saved :
    (ps : List Process) (cur regs i : ℕ)
    → is_runnable (process_at (update ps cur (λ p. record p { rsp = regs })) i)
      ≡ is_runnable (process_at ps i)
unfolding update
runnable-saved [] cur regs i = refl
runnable-saved (p ∷ ps) zero regs zero = refl
runnable-saved (p ∷ ps) zero regs (suc i) = refl
runnable-saved (p ∷ ps) (suc cur) regs zero = refl
runnable-saved (p ∷ ps) (suc cur) regs (suc i) = runnable-saved ps cur regs i

-- A process that is made to run was runnable, so nobody's chances change.
pub Runnable-run :
    (ps : List Process) (n i : ℕ)
    → Runnable ps n
    → is_runnable (process_at (update ps n (λ p. record p { state = running })) i)
      ≡ is_runnable (process_at ps i)
unfolding update
Runnable-run [] n i h = refl
Runnable-run (p ∷ ps) zero zero h = sym h
Runnable-run (p ∷ ps) zero (suc i) h = refl
Runnable-run (p ∷ ps) (suc n) zero h = refl
Runnable-run (p ∷ ps) (suc n) (suc i) h = Runnable-run ps n i h

rsp-run :
    (ps : List Process) (n i : ℕ)
    → (process_at (update ps n (λ p. record p { state = running })) i).rsp ≡ (process_at ps i).rsp
unfolding update
rsp-run [] n i = refl
rsp-run (p ∷ ps) zero zero = refl
rsp-run (p ∷ ps) zero (suc i) = refl
rsp-run (p ∷ ps) (suc n) zero = refl
rsp-run (p ∷ ps) (suc n) (suc i) = rsp-run ps n i

next_runnable-saved :
    (ps : List Process) (cur regs from rounds : ℕ)
    → next_runnable (update ps cur (λ p. record p { rsp = regs })) cur from rounds
      ≡ next_runnable ps cur from rounds
unfolding next_runnable
next_runnable-saved ps cur regs from zero = refl
next_runnable-saved ps cur regs from (suc rounds) = rw (
  runnable-saved ps cur regs ((cur + from) % max_processes),
  next_runnable-saved ps cur regs (from + 1) rounds,
)

-- The table has its 32 entries, and `cur` is the index of the current one.
pub record Runs (k : Kernel) (cur : ℕ) : Type 0 where
  pub full : length k.processes ≡ max_processes
  pub is_current : k.current_process ≡ some cur
  pub in_table : cur < max_processes

-- What one call of the scheduler does from `k`, which runs `cur` with its frame at `regs`.
pub record Picked (k : Kernel) (cur regs : ℕ) (out : ℕ × Kernel) : Type 0 where
  pub chosen : ℕ
  pub runs : Runs out.1 chosen
  pub nearest :
      Nearest k.processes cur 1 max_processes chosen
      ⊎ ((chosen ≡ cur)
          × ((m : ℕ) → m < max_processes → is_runnable (process_at k.processes m) ≡ false))
  pub saved : (process_at out.1.processes cur).rsp ≡ regs
  pub resumed : out.0 ≡ (process_at out.1.processes chosen).rsp
  pub kept : (i : ℕ) → cur ≢ i → (process_at out.1.processes i).rsp ≡ (process_at k.processes i).rsp
  pub frames : out.1.frames ≡ k.frames
  pub same :
      (i : ℕ) → is_runnable (process_at out.1.processes i) ≡ is_runnable (process_at k.processes i)

module _ (k : Kernel) (cur regs : ℕ) (r : Runs k cur) where
  abbrev after_save : Kernel
  after_save = record k { processes = update k.processes cur (λ p. record p { rsp = regs }) }

  saved_frame : (process_at after_save.processes cur).rsp ≡ regs
  saved_frame =
      ap (λ (p : Process). p.rsp)
        (process_at-update_self k.processes cur (λ p. record p { rsp = regs })
          (omega (arith, r.full, r.in_table)))

  Runs-save : Runs after_save cur
  Runs-save = record {
    full = length-update k.processes cur (λ p. record p { rsp = regs }) ∙ r.full;
    is_current = r.is_current;
    in_table = r.in_table;
  }

  unsaved :
      (i : ℕ) → cur ≢ i → (process_at after_save.processes i).rsp ≡ (process_at k.processes i).rsp
  unsaved i ne =
      ap (λ (p : Process). p.rsp)
        (process_at-update_ne k.processes cur i (λ p. record p { rsp = regs }) ne)

  stay-Picked :
      Nearest k.processes cur 1 max_processes cur
        ⊎ ((m : ℕ) → m < max_processes → is_runnable (process_at k.processes m) ≡ false)
      → Picked k cur regs (regs, after_save)
  stay-Picked w = record {
    chosen = cur;
    runs = Runs-save;
    nearest = elim w [ inl n ↦ inl n | inr f ↦ inr (refl, f) ];
    saved = saved_frame;
    resumed = sym saved_frame;
    kept = unsaved;
    frames = refl;
    same = runnable-saved k.processes cur regs;
  }

  switch-Picked :
      (n : ℕ)
      → Nearest k.processes cur 1 max_processes n
      → n ≢ cur
      → Picked k cur regs (dispatch after_save regs cur (some n))
  unfolding dispatch
  switch-Picked n near ne =
      let e : (n == cur) ≡ false = ground arith in
      let f = λ (p : Process). record p { state = running } in
      let ps = after_save.processes in
      let lt : n < length ps = omega (arith, near.place, Runs-save.full) in
      rw e (record {
        chosen = n;
        runs = record {
          full = length-update ps n f ∙ Runs-save.full;
          is_current = refl;
          in_table = omega (arith, near.place);
        };
        nearest = inl near;
        saved = rw (process_at-update_ne ps n cur f ne) saved_frame;
        resumed = sym (ap (λ (p : Process). p.rsp) (process_at-update_self ps n f lt));
        kept = λ i ne'. rsp-run ps n i ∙ unsaved i ne';
        frames = refl;
        same = λ i.
            Runnable-run ps n i (runnable-saved k.processes cur regs n ∙ near.can_run)
            ∙ runnable-saved k.processes cur regs i;
      })

  schedule-dispatch :
      scheduler_schedule k regs
      ≡ dispatch after_save regs cur (next_runnable k.processes cur 1 max_processes)
  unfolding scheduler_schedule
  schedule-dispatch =
      ground (arith, r.is_current, next_runnable-saved k.processes cur regs 1 max_processes)

  nobody :
      next_runnable k.processes cur 1 max_processes ≡ none
      → (m : ℕ) → m < max_processes
      → is_runnable (process_at k.processes m) ≡ false
  nobody e m h =
      let w = next_runnable-none k.processes cur 1 max_processes e (m + max_processes - cur) in
      let w' = next_runnable-none k.processes cur 1 max_processes e (m - cur) in
      elim (dec_le m cur) [
        | yes le ↦
            let e' : (cur + (m + max_processes - cur)) % max_processes ≡ m =
              omega (arith, r.in_table) in
            rw (← e') (w (omega (arith, r.in_table)) (omega (arith, r.in_table)))
        | no gt ↦
            let e' : (cur + (m - cur)) % max_processes ≡ m = omega (arith, r.in_table) in
            rw (← e') (w' (omega (arith, r.in_table)) (omega (arith, r.in_table)))
      ]

  picked :
      (o : Option ℕ)
      → next_runnable k.processes cur 1 max_processes ≡ o
      → Picked k cur regs (dispatch after_save regs cur o)
  unfolding dispatch
  picked none e = stay-Picked (inr (nobody e))
  picked (some n) e =
      let near = next_runnable-Nearest k.processes cur 1 max_processes e in
      elim (ℕ_discrete n cur) [
        | yes same ↦
            let b : (n == cur) ≡ true = ground arith in
            rw b (stay-Picked (inl (subst (Nearest k.processes cur 1 max_processes) same near)))
        | no ne ↦ switch-Picked n near ne
      ]

  -- Where the table has 32 entries and `cur` is current, scheduler_schedule saves the interrupted
  -- frame in the entry of `cur` and makes current, and resumes with its saved frame, the first
  -- runnable process that comes after `cur` going round the table, `cur` itself the last; it stays
  -- at `cur` where none is runnable. It leaves the table full, keeps the other entries'
  -- saved addresses and the frames in memory, and changes nobody's being runnable.
  pub schedule-Picked : Picked k cur regs (scheduler_schedule k regs)
  schedule-Picked =
      rw schedule-dispatch (picked (next_runnable k.processes cur 1 max_processes) refl)
