-- ===== src/Router/Interleave/Ends.antt =====
-- That the calls of the load balancer end: none goes on for ever, and none is stuck.
use toska_mesh.Prelude.{
  ℕ, zero, suc, ◌+◌, ◌*◌, ◌≤◌, ◌<◌, ◌≡◌, refl, ap, ◌∙◌, ◌≢◌, inl, inr, List, arith, ◌==◌,
  Bool-cases, length,
}
use toska_mesh.Router.Interleave.{
  Memory, Pc, idle, scanning, loading, adding, counted, reporting, releasing, Effect, Move,
  call_select, look_up, load_better, load_worse, find_none, choose, add, record_it, call_report,
  leave_count, check, release_one, finish_report, System, set_pc, Step, pick, Steps, at_rest,
}
use toska_mesh.Router.Interleave.Progress.{Steps-IsHeld, Moves, busy-Moves, IsHeld-at_rest}
use toska_mesh.Router.Balancer.{LoadBalancer}

-- The moves that a call takes at most, from where it stands.
abbrev pub moves_left : Pc → ℕ
moves_left idle = 0
moves_left (scanning name rest best n) = 2 * length rest + 3
moves_left (loading name inst rest best n) = 2 * length rest + 4
moves_left (adding name inst) = 2
moves_left (counted name inst) = 1
moves_left (reporting id rest r) = 2 * length rest + 1
moves_left (releasing id name rest r) = 2 * length rest + 2

-- for the threads below N together
abbrev pub all_moves_left : ℕ → (ℕ → Pc) → ℕ
all_moves_left zero pc = 0
all_moves_left (suc n) pc = moves_left (pc n) + all_moves_left n pc

-- Some moves, by threads below N, that start no new call.
pub data Onward (N : ℕ) : System → ℕ → System → Type 0 where
  stop : (s : System) → Onward N s zero s
  go :
      (s t u : System) (i : ℕ) (e : Effect) (k : ℕ)
      → i < N
      → s.pc i ≢ idle
      → Step s i e t
      → Onward N t k u
      → Onward N s (suc k) u

-- A move of a call brings it nearer to its end.
Move-left :
    (i : ℕ) (m : Memory) (p : Pc) (e : Effect) (m' : Memory) (p' : Pc)
    → Move i m p e m' p'
    → p ≢ idle
    → moves_left p' < moves_left p
Move-left i m p e m' p' (call_select n xs l) ne = absurd (ne refl)
Move-left i m p e m' p' (look_up n inst rest best v l) ne = omega arith
Move-left i m p e m' p' (load_better n inst rest best v b) ne = omega arith
Move-left i m p e m' p' (load_worse n inst rest best v b) ne = omega arith
Move-left i m p e m' p' (find_none n v) ne = omega arith
Move-left i m p e m' p' (choose n inst v l) ne = omega arith
Move-left i m p e m' p' (add n inst) ne = omega arith
Move-left i m p e m' p' (record_it n inst l) ne = omega arith
Move-left i m p e m' p' (call_report id x l) ne = absurd (ne refl)
Move-left i m p e m' p' (leave_count id n rest x b) ne = omega arith
Move-left i m p e m' p' (check id n rest x b) ne = omega arith
Move-left i m p e m' p' (release_one id n rest x) ne = omega arith
Move-left i m p e m' p' (finish_report id x) ne = omega arith

all_moves_left-above :
    (N : ℕ) (pc : ℕ → Pc) (i : ℕ) (p : Pc)
    → N ≤ i
    → all_moves_left N (set_pc pc i p) ≡ all_moves_left N pc
all_moves_left-above zero pc i p h = refl
all_moves_left-above (suc n) pc i p h = ground (arith, all_moves_left-above n pc i p)

all_moves_left-set :
    (N : ℕ) (pc : ℕ → Pc) (i : ℕ) (p : Pc)
    → i < N
    → all_moves_left N (set_pc pc i p) + moves_left (pc i) ≡ all_moves_left N pc + moves_left p
all_moves_left-set zero pc i p h = absurd (omega arith)
all_moves_left-set (suc n) pc i p h = elim (Bool-cases (n == i)) [
  | inl e ↦
      let same : n ≡ i = ground arith in
      rw (e, ap pc same) (omega (arith, all_moves_left-above n pc i p (omega arith)))
  | inr e ↦ rw e (omega (arith, all_moves_left-set n pc i p (ground arith)))
]

Step-left :
    (N : ℕ) (s : System) (i : ℕ) (e : Effect) (t : System)
    → i < N
    → s.pc i ≢ idle
    → Step s i e t
    → all_moves_left N t.pc < all_moves_left N s.pc
Step-left N s i e _ h ne (pick _ _ m p p' here mv) =
    let nearer = Move-left i s.memory p e m p' mv (λ q. ne (here ∙ q)) in
    let changed = all_moves_left-set N s.pc i p' h in omega (arith, ap moves_left here)

Onward-left :
    (N : ℕ) (s : System) (k : ℕ) (t : System)
    → Onward N s k t
    → k + all_moves_left N t.pc ≤ all_moves_left N s.pc
Onward-left N s k t (stop _) = omega arith
Onward-left N s k u (go _ t _ i e k' h ne here later) =
    omega (arith, Step-left N s i e t h ne here, Onward-left N t k' u later)

-- The calls end. In every state that interleaved calls lead to, any further moves of the first N
-- threads that start no new call are at most as many as these threads have moves left, a number that
-- is read off the state; and as long as some call is running, one of the running calls can move, so
-- that they do not all wait for the mutex.
pub calls_end :
    (lb : LoadBalancer) (s : System) (es : List (ℕ × Effect)) (N : ℕ)
    → Steps (at_rest lb) es s
    → ((k : ℕ) (t : System) → Onward N s k t → k ≤ all_moves_left N s.pc)
      × ((i : ℕ) → s.pc i ≢ idle → Moves s)
calls_end lb s es N steps = (
  λ k t run. omega (arith, Onward-left N s k t run),
  λ i ne. busy-Moves s i (Steps-IsHeld (at_rest lb) s es (IsHeld-at_rest lb) steps) ne,
)
