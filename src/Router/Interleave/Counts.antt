-- ===== src/Router/Interleave/Counts.antt =====
-- That the counters of least-connections stay right while calls interleave.
use toska_mesh.Prelude.{
  ℕ, suc, ◌<◌, String, ◌≡◌, refl, ◌≢◌, ◌&&◌, some, arith, str_eq, eq_iff, if◌then◌else◌,
}
use toska_mesh.Prelude.Int.{ℤ, pos, negsuc, ◌≤ℤ◌, max_int64, add64}
use toska_mesh.Prelude.Dict.{Dict}
use toska_mesh.Router.Tracking.{count_of, count_of-insert}
use toska_mesh.Router.Balancer.{get_or_create, counts_of, record_request}
use toska_mesh.Router.Least.{count_of-get_or_create}
use toska_mesh.Router.Interleave.{
  Memory, count_at, Pc, idle, scanning, loading, adding, counted, reporting, releasing, Effect,
  quiet, added, released, modify, add_to, Move, call_select, look_up, load_better, load_worse,
  find_none, choose, add, record_it, call_report, leave_count, check, release_one, finish_report,
  System, applied, count_at-modify,
}

-- A change that keeps every counter of the service keeps all counters.
modify_same :
    (name' : String) (f : Dict ℤ → Dict ℤ) (m : Memory) (name j : String)
    → count_of j (f (counts_of name' m.lb.connection_count))
      ≡ count_of j (counts_of name' m.lb.connection_count)
    → count_at (modify name' f m) name j ≡ count_at m name j
modify_same name' f m name j h = ground (arith, count_at-modify name' f m name j, eq_iff name' name)

add_to-count :
    (name' id : String) (d : ℤ) (m : Memory) (name j : String)
    → count_at (modify name' (add_to id d) m) name j ≡ (
        if str_eq name' name && str_eq id j then add64 (count_at m name j) d else count_at m name j)
add_to-count name' id d m name j =
    let counts = counts_of name' m.lb.connection_count in
    ground (
      arith,
      count_at-modify name' (add_to id d) m name j,
      eq_iff name' name,
      eq_iff id j,
      count_of-insert id j (add64 (count_of id counts) d) counts,
    )

-- A move changes the counters by its effect.
pub Move-count :
    (i : ℕ) (m : Memory) (p : Pc) (e : Effect) (m' : Memory) (p' : Pc) (name j : String)
    → Move i m p e m' p'
    → count_at m' name j ≡ applied e name j (count_at m name j)
unfolding applied record_request
Move-count i m p e m' p' name j (call_select n xs l) = modify_same n (λ c. c) m name j refl
Move-count i m p e m' p' name j (look_up n inst rest best v l) =
    modify_same n (λ c. get_or_create c inst.service_id) m name j
      (count_of-get_or_create _ inst.service_id j)
Move-count i m p e m' p' name j (load_better n inst rest best v b) = refl
Move-count i m p e m' p' name j (load_worse n inst rest best v b) = refl
Move-count i m p e m' p' name j (find_none n v) = refl
Move-count i m p e m' p' name j (choose n inst v l) =
    modify_same n (λ c. get_or_create c inst.service_id) m name j
      (count_of-get_or_create _ inst.service_id j)
Move-count i m p e m' p' name j (add n inst) = add_to-count n inst.service_id (pos 1) m name j
Move-count i m p e m' p' name j (record_it n inst l) = refl
Move-count i m p e m' p' name j (call_report id r l) = refl
Move-count i m p e m' p' name j (leave_count id n rest r b) = refl
Move-count i m p e m' p' name j (check id n rest r b) = refl
Move-count i m p e m' p' name j (release_one id n rest r) = add_to-count n id (negsuc 0) m name j
Move-count i m p e m' p' name j (finish_report id r) = refl

-- A thread inside `ReportResult`.
abbrev pub Reports : Pc → Type 0
Reports (reporting id rest r) = Unit
Reports (releasing id name rest r) = Unit
Reports idle = ⊥
Reports (scanning name rest best n) = ⊥
Reports (loading name inst rest best n) = ⊥
Reports (adding name inst) = ⊥
Reports (counted name inst) = ⊥

-- A thread that is about to take one off has found a counter above 0.
abbrev pub Found : Memory → Pc → Type 0
Found m (releasing id name rest r) = pos 1 ≤ℤ count_at m name id
Found m (reporting id rest r) = Unit
Found m idle = Unit
Found m (scanning name rest best n) = Unit
Found m (loading name inst rest best n) = Unit
Found m (adding name inst) = Unit
Found m (counted name inst) = Unit

-- Of the calls in progress, only the one that holds the mutex is inside `ReportResult`, and its check
-- still holds; every counter lies between 0 and n.
pub record IsSafe (n : ℕ) (s : System) : Type 0 where
  pub counts_in :
      (name j : String) → (pos 0 ≤ℤ count_at s.memory name j) × (count_at s.memory name j ≤ℤ pos n)
  pub holds : (k : ℕ) → Reports (s.pc k) → s.memory.lock ≡ some k
  pub checked : (k : ℕ) → Found s.memory (s.pc k)

-- the moving thread holds the mutex afterwards if it reports
pub Move-holds :
    (i : ℕ) (m : Memory) (p : Pc) (e : Effect) (m' : Memory) (p' : Pc)
    → (Reports p → m.lock ≡ some i)
    → Move i m p e m' p'
    → Reports p'
    → m'.lock ≡ some i
Move-holds i m p e m' p' h (call_select n xs l) r = absurd r
Move-holds i m p e m' p' h (look_up n inst rest best v l) r = absurd r
Move-holds i m p e m' p' h (load_better n inst rest best v b) r = absurd r
Move-holds i m p e m' p' h (load_worse n inst rest best v b) r = absurd r
Move-holds i m p e m' p' h (find_none n v) r = absurd r
Move-holds i m p e m' p' h (choose n inst v l) r = absurd r
Move-holds i m p e m' p' h (add n inst) r = absurd r
Move-holds i m p e m' p' h (record_it n inst l) r = absurd r
Move-holds i m p e m' p' h (call_report id x l) r = refl
Move-holds i m p e m' p' h (leave_count id n rest x b) r = h tt
Move-holds i m p e m' p' h (check id n rest x b) r = h tt
Move-holds i m p e m' p' h (release_one id n rest x) r = h tt
Move-holds i m p e m' p' h (finish_report id x) r = absurd r

-- another thread that holds the mutex keeps it
pub Move-others :
    (i k : ℕ) (m : Memory) (p : Pc) (e : Effect) (m' : Memory) (p' : Pc)
    → (Reports p → m.lock ≡ some i)
    → Move i m p e m' p'
    → i ≢ k
    → m.lock ≡ some k
    → m'.lock ≡ some k
Move-others i k m p e m' p' h (call_report id x l) ne o = absurd (cc)
Move-others i k m p e m' p' h (finish_report id x) ne o = absurd (ne (ground (arith, h tt)))
Move-others i k m p e m' p' h (call_select n xs l) ne o = o
Move-others i k m p e m' p' h (look_up n inst rest best v l) ne o = o
Move-others i k m p e m' p' h (load_better n inst rest best v b) ne o = o
Move-others i k m p e m' p' h (load_worse n inst rest best v b) ne o = o
Move-others i k m p e m' p' h (find_none n v) ne o = o
Move-others i k m p e m' p' h (choose n inst v l) ne o = o
Move-others i k m p e m' p' h (add n inst) ne o = o
Move-others i k m p e m' p' h (record_it n inst l) ne o = o
Move-others i k m p e m' p' h (leave_count id n rest x b) ne o = o
Move-others i k m p e m' p' h (check id n rest x b) ne o = o
Move-others i k m p e m' p' h (release_one id n rest x) ne o = o

-- the check of the moving thread
pub Move-Found :
    (i : ℕ) (m : Memory) (p : Pc) (e : Effect) (m' : Memory) (p' : Pc)
    → Move i m p e m' p'
    → Found m' p'
Move-Found i m p e m' p' (call_select n xs l) = tt
Move-Found i m p e m' p' (look_up n inst rest best v l) = tt
Move-Found i m p e m' p' (load_better n inst rest best v b) = tt
Move-Found i m p e m' p' (load_worse n inst rest best v b) = tt
Move-Found i m p e m' p' (find_none n v) = tt
Move-Found i m p e m' p' (choose n inst v l) = tt
Move-Found i m p e m' p' (add n inst) = tt
Move-Found i m p e m' p' (record_it n inst l) = tt
Move-Found i m p e m' p' (call_report id x l) = tt
Move-Found i m p e m' p' (leave_count id n rest x b) = tt
Move-Found i m p e m' p' (check id n rest x b) = ground arith
Move-Found i m p e m' p' (release_one id n rest x) = tt
Move-Found i m p e m' p' (finish_report id x) = tt

-- A counter goes down only by a thread that reports and has checked it.
pub Move-released :
    (i : ℕ) (m : Memory) (p : Pc) (e : Effect) (m' : Memory) (p' : Pc) (a b : String)
    → Move i m p e m' p'
    → e ≡ released a b
    → Reports p × (Found m p → pos 1 ≤ℤ count_at m a b)
Move-released i m p e m' p' a b (call_select n xs l) same = absurd (cc)
Move-released i m p e m' p' a b (look_up n inst rest gest v l) same = absurd (cc)
Move-released i m p e m' p' a b (load_better n inst rest gest v g) same = absurd (cc)
Move-released i m p e m' p' a b (load_worse n inst rest gest v g) same = absurd (cc)
Move-released i m p e m' p' a b (find_none n v) same = absurd (cc)
Move-released i m p e m' p' a b (choose n inst v l) same = absurd (cc)
Move-released i m p e m' p' a b (add n inst) same = absurd (cc)
Move-released i m p e m' p' a b (record_it n inst l) same = absurd (cc)
Move-released i m p e m' p' a b (call_report id x l) same = absurd (cc)
Move-released i m p e m' p' a b (leave_count id n rest x g) same = absurd (cc)
Move-released i m p e m' p' a b (check id n rest x g) same = absurd (cc)
Move-released i m p e m' p' a b (release_one id n rest x) same = (tt, λ f. ground (arith, f))
Move-released i m p e m' p' a b (finish_report id x) same = absurd (cc)

abbrev pub InRange : ℕ → ℤ → Type 0
InRange n v = (pos 0 ≤ℤ v) × (v ≤ℤ pos n)

pub applied-InRange :
    (e : Effect) (name j : String) (v : ℤ) (n : ℕ)
    → InRange n v
    → n < max_int64
    → (e ≡ released name j → pos 1 ≤ℤ v)
    → InRange (suc n) (applied e name j v)
unfolding applied add64
applied-InRange quiet name j v n h b f = ground arith
applied-InRange (added a id) name j v n h b f = ground arith
applied-InRange (released a id) name j v n h b f = ground (arith, eq_iff a name, eq_iff id j)

-- An effect that takes nothing off this counter leaves it as high as it was.
applied-keeps :
    (e : Effect) (name j : String) (v : ℤ) (n : ℕ)
    → InRange n v
    → n < max_int64
    → e ≢ released name j
    → pos 1 ≤ℤ v
    → pos 1 ≤ℤ applied e name j v
unfolding applied add64
applied-keeps quiet name j v n h b ne o = o
applied-keeps (added a id) name j v n h b ne o = ground arith
applied-keeps (released a id) name j v n h b ne o = ground (arith, eq_iff a name, eq_iff id j)

pub others-Found :
    (q : Pc) (m m' : Memory) (e : Effect) (n : ℕ)
    → ((name j : String) → InRange n (count_at m name j))
    → n < max_int64
    → ((name j : String) → count_at m' name j ≡ applied e name j (count_at m name j))
    → ((a b : String) → Reports q → e ≢ released a b)
    → Found m q
    → Found m' q
others-Found (releasing id name rest x) m m' e n h b c ne f =
    rw (c name id) (applied-keeps e name id (count_at m name id) n (h name id) b (ne name id tt) f)
others-Found (reporting id rest x) m m' e n h b c ne f = tt
others-Found idle m m' e n h b c ne f = tt
others-Found (scanning name rest best v) m m' e n h b c ne f = tt
others-Found (loading name inst rest best v) m m' e n h b c ne f = tt
others-Found (adding name inst) m m' e n h b c ne f = tt
others-Found (counted name inst) m m' e n h b c ne f = tt
