-- ===== src/Router/Interleave/Progress.antt =====
-- That interleaved calls of the load balancer are never stuck.
use toska_mesh.Prelude.{
  ℕ, String, ◌≡◌, refl, sym, ap, ◌∙◌, subst, ◌≢◌, ◌⊎◌, inl, inr, true, false, ◌||◌, Option, none,
  some, List, [], ◌∷◌, arith, ◌==◌, Bool-cases, Option-cases,
}
use toska_mesh.Prelude.Int.{ℤ, pos, ltb_ℤ}
use toska_mesh.Router.{Instance, RequestResult}
use toska_mesh.Router.Balancer.{LoadBalancer}
use toska_mesh.Router.Interleave.{
  Memory, count_at, Pc, idle, scanning, loading, adding, counted, reporting, releasing, Effect,
  Move, call_select, look_up, load_better, load_worse, find_none, choose, add, record_it,
  call_report, leave_count, check, release_one, finish_report, System, Step, pick, Steps, done,
  next, at_rest,
}
use toska_mesh.Router.Interleave.Counts.{Reports}

-- The mutex is held only by a thread inside `ReportResult`.
abbrev pub IsHeld : System → Type 0
IsHeld s = (k : ℕ) → s.memory.lock ≡ some k → Reports (s.pc k)

mover_or_not :
    (i k : ℕ) (m : Memory) → m.lock ≡ some k → ((i ≡ k) × Unit {0}) ⊎ ((i ≢ k) × (m.lock ≡ some k))
mover_or_not i k m o = elim (Bool-cases (i == k)) [
  | inl e ↦ inl (ground arith, tt)
  | inr e ↦ inr (ground arith, o)
]

-- after a move, the mutex is held by the mover, which reports, or by whoever held it before
Move-IsHeld :
    (i k : ℕ) (m : Memory) (p : Pc) (e : Effect) (m' : Memory) (p' : Pc)
    → Move i m p e m' p'
    → (m.lock ≡ some i → Reports p)
    → m'.lock ≡ some k
    → ((i ≡ k) × Reports p') ⊎ ((i ≢ k) × (m.lock ≡ some k))
Move-IsHeld i k m p e m' p' (call_select n xs l) h o = absurd (cc)
Move-IsHeld i k m p e m' p' (look_up n inst rest best v l) h o = absurd (cc)
Move-IsHeld i k m p e m' p' (choose n inst v l) h o = absurd (cc)
Move-IsHeld i k m p e m' p' (record_it n inst l) h o = absurd (cc)
Move-IsHeld i k m p e m' p' (load_better n inst rest best v b) h o =
    inr (λ q. h (o ∙ ap some (sym q)), o)
Move-IsHeld i k m p e m' p' (load_worse n inst rest best v b) h o =
    inr (λ q. h (o ∙ ap some (sym q)), o)
Move-IsHeld i k m p e m' p' (find_none n v) h o = inr (λ q. h (o ∙ ap some (sym q)), o)
Move-IsHeld i k m p e m' p' (add n inst) h o = inr (λ q. h (o ∙ ap some (sym q)), o)
Move-IsHeld i k m p e m' p' (call_report id x l) h o = inl (ground arith, tt)
Move-IsHeld i k m p e m' p' (leave_count id n rest x b) h o = mover_or_not i k m o
Move-IsHeld i k m p e m' p' (check id n rest x b) h o = mover_or_not i k m o
Move-IsHeld i k m p e m' p' (release_one id n rest x) h o = mover_or_not i k m o
Move-IsHeld i k m p e m' p' (finish_report id x) h o = absurd (cc)

Step-IsHeld : (s : System) (i : ℕ) (e : Effect) (t : System) → IsHeld s → Step s i e t → IsHeld t
Step-IsHeld s i e _ h (pick _ _ m p p' here mv) k o =
    elim (Move-IsHeld i k s.memory p e m p' mv (λ q. subst Reports here (h i q)) o) [
      | inl (same, r) ↦ let eq : (k == i) ≡ true = ground arith in rw eq r
      | inr (other, held) ↦ let eq : (k == i) ≡ false = ground arith in rw eq (h k held)
    ]

pub Steps-IsHeld : (s t : System) (es : List (ℕ × Effect)) → IsHeld s → Steps s es t → IsHeld t
Steps-IsHeld s t es h (done _) = h
Steps-IsHeld s u es h (next _ t _ i e es' here later) =
    Steps-IsHeld t u es' (Step-IsHeld s i e t h here) later

-- A move of a thread.
abbrev CanMove : ℕ → Memory → Pc → Type 0
CanMove i m p = (e : Effect) × (m' : Memory) × (p' : Pc) × Move i m p e m' p'

scanning-CanMove :
    (i : ℕ) (m : Memory) (name : String) (rest : List Instance) (best : Option Instance) (n : ℤ)
    → m.lock ≡ none
    → CanMove i m (scanning name rest best n)
scanning-CanMove i m name (inst ∷ rest) best n l = (_, _, _, look_up name inst rest best n l)
scanning-CanMove i m name [] none n l = (_, _, _, find_none name n)
scanning-CanMove i m name [] (some inst) n l = (_, _, _, choose name inst n l)

loading-CanMove :
    (i : ℕ) (m : Memory) (name : String) (inst : Instance) (rest : List Instance)
    (best : Option Instance) (n : ℤ)
    → CanMove i m (loading name inst rest best n)
loading-CanMove i m name inst rest best n =
    elim (Bool-cases (ltb_ℤ n (pos 0) || ltb_ℤ (count_at m name inst.service_id) n)) [
      | inl e ↦ (_, _, _, load_better name inst rest best n e)
      | inr e ↦ (_, _, _, load_worse name inst rest best n e)
    ]

reporting-CanMove :
    (i : ℕ) (m : Memory) (id : String) (rest : List String) (r : RequestResult)
    → CanMove i m (reporting id rest r)
reporting-CanMove i m id [] r = (_, _, _, finish_report id r)
reporting-CanMove i m id (name ∷ rest) r = elim (Bool-cases (ltb_ℤ (pos 0) (count_at m name id))) [
  | inl e ↦ (_, _, _, check id name rest r e)
  | inr e ↦ (_, _, _, leave_count id name rest r e)
]

-- With the mutex free, a thread inside a call can move; so can always one inside `ReportResult`.
free-CanMove : (i : ℕ) (m : Memory) (p : Pc) → p ≢ idle → m.lock ≡ none → CanMove i m p
free-CanMove i m idle ne l = absurd (ne refl)
free-CanMove i m (scanning name rest best n) ne l = scanning-CanMove i m name rest best n l
free-CanMove i m (loading name inst rest best n) ne l = loading-CanMove i m name inst rest best n
free-CanMove i m (adding name inst) ne l = (_, _, _, add name inst)
free-CanMove i m (counted name inst) ne l = (_, _, _, record_it name inst l)
free-CanMove i m (reporting id rest r) ne l = reporting-CanMove i m id rest r
free-CanMove i m (releasing id name rest r) ne l = (_, _, _, release_one id name rest r)

reports-CanMove : (i : ℕ) (m : Memory) (p : Pc) → Reports p → CanMove i m p
reports-CanMove i m (reporting id rest r) h = reporting-CanMove i m id rest r
reports-CanMove i m (releasing id name rest r) h = (_, _, _, release_one id name rest r)
reports-CanMove i m idle h = absurd h
reports-CanMove i m (scanning name rest best n) h = absurd h
reports-CanMove i m (loading name inst rest best n) h = absurd h
reports-CanMove i m (adding name inst) h = absurd h
reports-CanMove i m (counted name inst) h = absurd h

reports-busy : (p : Pc) → Reports p → p ≢ idle
reports-busy p r e = subst Reports e r

-- A thread that is inside a call and can move.
abbrev pub Moves : System → Type 0
Moves s = (i : ℕ) × (s.pc i ≢ idle) × ((e : Effect) × (t : System) × Step s i e t)

moving :
    (s : System) (i : ℕ) → CanMove i s.memory (s.pc i) → (e : Effect) × (t : System) × Step s i e t
moving s i (e, m, p', mv) = (e, _, pick i e m (s.pc i) p' refl mv)

pub busy-Moves : (s : System) (k : ℕ) → IsHeld s → s.pc k ≢ idle → Moves s
busy-Moves s k h ne = elim (Option-cases s.memory.lock) [
  | inl free ↦ (k, ne, moving s k (free-CanMove k s.memory (s.pc k) ne free))
  | inr (i, held) ↦
      let r = h i held in
      (i, reports-busy (s.pc i) r, moving s i (reports-CanMove i s.memory (s.pc i) r))
]

pub IsHeld-at_rest : (lb : LoadBalancer) → IsHeld (at_rest lb)
IsHeld-at_rest lb k o = absurd (cc)
