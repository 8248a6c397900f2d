-- ===== src/Router/Interleave/Safe.antt =====
-- What holds at all times while calls of the load balancer interleave.
use toska_mesh.Prelude.{
  ℕ, suc, ◌+◌, ◌≤◌, ◌<◌, String, ◌≡◌, sym, subst, ◌≢◌, inl, inr, ◌&&◌, some, List, [], ◌∷◌, arith,
  str_eq, eq_iff, ◌==◌, if◌then◌else◌, Bool-cases, length,
}
use toska_mesh.Prelude.Int.{ℤ, pos, pos_part, ◌≤ℤ◌, max_int64, add64}
use toska_mesh.Router.Tracking.{count_of}
use toska_mesh.Router.Balancer.{LoadBalancer, counts_of}
use toska_mesh.Router.Interleave.{
  Memory, count_at, Pc, Effect, quiet, added, released, Move, System, set_pc, Step, pick, Steps,
  done, next, at_rest, applied,
}
use toska_mesh.Router.Interleave.Counts.{
  Move-count, Reports, Found, IsSafe, Move-holds, Move-others, Move-Found, Move-released, InRange,
  applied-InRange, others-Found,
}

module _ (s : System) (n i : ℕ) (e : Effect) (m : Memory) (p p' : Pc) (safe : IsSafe n s)
    (small : n < max_int64) (here : s.pc i ≡ p) (mv : Move i s.memory p e m p') where
  own_lock : Reports p → s.memory.lock ≡ some i
  own_lock r = safe.holds i (subst Reports (sym here) r)

  own_check : Found s.memory p
  own_check = subst (Found s.memory) here (safe.checked i)

  moved-counts : (name j : String) → InRange (suc n) (count_at m name j)
  moved-counts name j = rw (Move-count i s.memory p e m p' name j mv) (
      applied-InRange e name j (count_at s.memory name j) n (safe.counts_in name j) small
        λ same. (Move-released i s.memory p e m p' name j mv same).1 own_check)

  -- The other threads take nothing off while one of them reports.
  other_effect : (k : ℕ) → i ≢ k → Reports (s.pc k) → (a b : String) → e ≢ released a b
  other_effect k ne r a b same =
      let mine = own_lock (Move-released i s.memory p e m p' a b mv same).0 in
      ne (ground (arith, mine, safe.holds k r))

  moved-holds : (k : ℕ) → Reports (set_pc s.pc i p' k) → m.lock ≡ some k
  moved-holds k r = elim (Bool-cases (k == i)) [
    | inl q ↦
        let same : i ≡ k = ground arith in
        subst (λ x. m.lock ≡ some x) same (Move-holds i s.memory p e m p' own_lock mv (rw q at r))
    | inr q ↦
        Move-others i k s.memory p e m p' own_lock mv (ground arith) (safe.holds k (rw q at r))
  ]

  moved-checked : (k : ℕ) → Found m (set_pc s.pc i p' k)
  moved-checked k = elim (Bool-cases (k == i)) [
    | inl q ↦ rw q (Move-Found i s.memory p e m p' mv)
    | inr q ↦ rw q (
        others-Found (s.pc k) s.memory m e n safe.counts_in small
          (λ name j. Move-count i s.memory p e m p' name j mv)
          (λ a b r. other_effect k (ground arith) r a b) (safe.checked k))
  ]

Step-IsSafe :
    (s : System) (n i : ℕ) (e : Effect) (t : System)
    → IsSafe n s
    → n < max_int64
    → Step s i e t
    → IsSafe (suc n) t
Step-IsSafe s n i e _ safe small (pick _ _ m p p' here mv) = record {
  counts_in = moved-counts s n i e m p p' safe small here mv;
  holds = moved-holds s n i e m p p' safe small here mv;
  checked = moved-checked s n i e m p p' safe small here mv;
}

IsSafe-at_rest :
    (lb : LoadBalancer) (n : ℕ)
    → ((name j : String) → InRange n (count_of j (counts_of name lb.connection_count)))
    → IsSafe n (at_rest lb)
IsSafe-at_rest lb n h = record { counts_in = h; holds = λ k r. absurd r; checked = λ k. tt }

Steps-IsSafe :
    (s t : System) (es : List (ℕ × Effect)) (n : ℕ)
    → Steps s es t
    → IsSafe n s
    → n + length es ≤ max_int64
    → IsSafe (n + length es) t
Steps-IsSafe s t es n (done _) safe small =
    let same : n ≡ n + length {A = ℕ × Effect} [] = omega arith in subst (λ k. IsSafe k s) same safe
Steps-IsSafe s u es n (next _ t _ i e es' here later) safe small =
    let safe' = Step-IsSafe s n i e t safe (omega arith) here in
    let all = Steps-IsSafe t u es' (suc n) later safe' (omega arith) in
    let same : suc n + length es' ≡ n + length ((i, e) ∷ es') = omega arith in
    subst (λ k. IsSafe k u) same all

-- Calls of `Select` by least connections and of `ReportResult` may interleave in any way: if at first
-- no call is running and every connection count lies between 0 and n, then after any moves every count
-- lies between 0 and n plus the number of the moves. In particular a count that `ReportResult` has
-- found above 0 is still above 0 when it takes one off. (No overflow: the bound stays below 2 ^ 63.)
pub interleaved_counts :
    (lb : LoadBalancer) (t : System) (es : List (ℕ × Effect)) (n : ℕ) (name j : String)
    → Steps (at_rest lb) es t
    → ((name j : String)
        → (pos 0 ≤ℤ count_of j (counts_of name lb.connection_count))
          × (count_of j (counts_of name lb.connection_count) ≤ℤ pos n))
    → n + length es ≤ max_int64
    → (pos 0 ≤ℤ count_at t.memory name j) × (count_at t.memory name j ≤ℤ pos (n + length es))
interleaved_counts lb t es n name j steps h small =
    (Steps-IsSafe (at_rest lb) t es n steps (IsSafe-at_rest lb n h) small).counts_in name j

-- The number of increments of a counter, and of its decrements.
abbrev pub adds : String → String → Effect → ℕ
adds name j (added name' id) = if str_eq name' name && str_eq id j then 1 else 0
adds name j (released name' id) = 0
adds name j quiet = 0

abbrev pub takes : String → String → Effect → ℕ
takes name j (added name' id) = 0
takes name j (released name' id) = if str_eq name' name && str_eq id j then 1 else 0
takes name j quiet = 0

-- over a sequence of moves
abbrev pub total : (Effect → ℕ) → List (ℕ × Effect) → ℕ
total f [] = 0
total f ((i, e) ∷ es) = f e + total f es

applied-parts :
    (e : Effect) (name j : String) (v : ℤ) (n : ℕ)
    → InRange n v
    → n < max_int64
    → (e ≡ released name j → pos 1 ≤ℤ v)
    → pos_part (applied e name j v) + takes name j e ≡ pos_part v + adds name j e
unfolding applied add64
applied-parts quiet name j v n h b f = ground arith
applied-parts (added a id) name j v n h b f = ground arith
applied-parts (released a id) name j v n h b f = ground (arith, eq_iff a name, eq_iff id j)

Step-parts :
    (s : System) (n i : ℕ) (e : Effect) (t : System) (name j : String)
    → IsSafe n s
    → n < max_int64
    → Step s i e t
    → pos_part (count_at t.memory name j) + takes name j e
      ≡ pos_part (count_at s.memory name j) + adds name j e
Step-parts s n i e _ name j safe small (pick _ _ m p p' here mv) =
    rw (Move-count i s.memory p e m p' name j mv) (
      applied-parts e name j (count_at s.memory name j) n (safe.counts_in name j) small λ same.
        (Move-released i s.memory p e m p' name j mv same).1
          (own_check s n i e m p p' safe small here mv))

Steps-parts :
    (s t : System) (es : List (ℕ × Effect)) (n : ℕ) (name j : String)
    → Steps s es t
    → IsSafe n s
    → n + length es ≤ max_int64
    → pos_part (count_at t.memory name j) + total (takes name j) es
      ≡ pos_part (count_at s.memory name j) + total (adds name j) es
Steps-parts s t es n name j (done _) safe small = omega arith
Steps-parts s u es n name j (next _ t _ i e es' here later) safe small =
    let safe' = Step-IsSafe s n i e t safe (omega arith) here in
    omega (
      arith,
      Step-parts s n i e t name j safe (omega arith) here,
      Steps-parts t u es' (suc n) name j later safe' (omega arith),
    )

-- No update of a connection count is lost: after any interleaving of calls, the count of an instance
-- and the number of times that `ReportResult` took one off make up what it was at first and the number
-- of times that least connections selected the instance. (At first no call is running and every count
-- lies between 0 and n; the moves are too few for an overflow.)
pub interleaved_ledger :
    (lb : LoadBalancer) (t : System) (es : List (ℕ × Effect)) (n : ℕ) (name j : String)
    → Steps (at_rest lb) es t
    → ((name j : String)
        → (pos 0 ≤ℤ count_of j (counts_of name lb.connection_count))
          × (count_of j (counts_of name lb.connection_count) ≤ℤ pos n))
    → n + length es ≤ max_int64
    → pos_part (count_at t.memory name j) + total (takes name j) es
      ≡ pos_part (count_of j (counts_of name lb.connection_count)) + total (adds name j) es
interleaved_ledger lb t es n name j steps h small =
    Steps-parts (at_rest lb) t es n name j steps (IsSafe-at_rest lb n h) small
