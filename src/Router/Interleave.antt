-- ===== src/Router/Interleave.antt =====
-- internal/router/balancer.go: calls of `Select` by least connections and of `ReportResult` that run at
-- the same time. A thread moves from one shared access to the next. `lock` is the thread that holds
-- `lb.mu` between two moves; a method that holds the mutex for one access takes and gives it back in
-- one move, which waits until the mutex is free. A loaded counter is changed in a later move, `Add`
-- being atomic. A counter that was looked up keeps its identity, as the maps never drop one.
pub mod Counts
pub mod Safe
pub mod Progress
pub mod Ends
mod Tests
use toska_mesh.Prelude.{
  ℕ, String, ◌≡◌, true, false, ◌&&◌, ◌||◌, Option, none, some, List, [], ◌∷◌, arith, str_eq, ◌==◌,
  if◌then◌else◌,
}
use toska_mesh.Prelude.Int.{ℤ, pos, negsuc, ltb_ℤ, add64}
use toska_mesh.Prelude.Dict.{Dict, lookup, insert}
use toska_mesh.Router.{Instance, RequestResult}
use toska_mesh.Router.Tracking.{count_of, report}
use toska_mesh.Router.Balancer.{
  LoadBalancer, get_or_create, counts_of, counts_of-insert, record_request,
}

pub record Memory : Type 0 where
  pub lb : LoadBalancer
  pub lock : Option ℕ

-- the counter of an ID in a service
abbrev pub count_at : Memory → String → String → ℤ
count_at m name id = count_of id (counts_of name m.lb.connection_count)

-- Where a thread stands, with the local variables that are live there.
pub data Pc : Type 0 where
  idle : Pc
  scanning : String → List Instance → Option Instance → ℤ → Pc  -- head of the loop of `selectLeastConnections`
  loading : String → Instance → List Instance → Option Instance → ℤ → Pc  -- before `c.Load()`
  adding : String → Instance → Pc  -- before `c.Add(1)`
  counted : String → Instance → Pc  -- before `lb.recordRequest`
  reporting : String → List String → RequestResult → Pc  -- head of the loop of `ReportResult`
  releasing : String → String → List String → RequestResult → Pc  -- before `c.Add(-1)`

-- What a move does to the counters.
pub data Effect : Type 0 where
  quiet : Effect
  added : String → String → Effect
  released : String → String → Effect

-- the counters of a service, changed by `f`
abbrev pub modify : String → (Dict ℤ → Dict ℤ) → Memory → Memory
modify name f m = record m {
  lb = record m.lb {
    connection_count = insert name (f (counts_of name m.lb.connection_count)) m.lb.connection_count;
  };
}

-- `c.Add(d)` on the counter of an ID
abbrev pub add_to : String → ℤ → Dict ℤ → Dict ℤ
add_to id d counts = insert id (add64 (count_of id counts) d) counts

abbrev pub counted_services : Dict (Dict ℤ) → List String
counted_services [] = []
counted_services ((name, counts) ∷ m) = name ∷ counted_services m

-- the end of `ReportResult`
abbrev pub report_stats : String → RequestResult → Memory → Memory
report_stats id result m = record {
  lb = record m.lb {
    stats = elim (lookup id m.lb.stats) [
      | none ↦ m.lb.stats
      | some s ↦ insert id (report s result) m.lb.stats
    ];
  };
  lock = none;
}

-- One move of the thread `i`. Which call an idle thread makes is left open.
pub data Move (i : ℕ) (m : Memory) : Pc → Effect → Memory → Pc → Type 0 where
  call_select :
      (name : String) (candidates : List Instance)
      → m.lock ≡ none
      → Move i m idle quiet (modify name (λ c. c) m) (scanning name candidates none (negsuc 0))
  look_up :
      (name : String) (inst : Instance) (rest : List Instance) (best : Option Instance) (n : ℤ)
      → m.lock ≡ none
      → Move i m
          (scanning name (inst ∷ rest) best n)
          quiet
          (modify name (λ c. get_or_create c inst.service_id) m)
          (loading name inst rest best n)
  load_better :
      (name : String) (inst : Instance) (rest : List Instance) (best : Option Instance) (n : ℤ)
      → (ltb_ℤ n (pos 0) || ltb_ℤ (count_at m name inst.service_id) n) ≡ true
      → Move i m
          (loading name inst rest best n)
          quiet
          m
          (scanning name rest (some inst) (count_at m name inst.service_id))
  load_worse :
      (name : String) (inst : Instance) (rest : List Instance) (best : Option Instance) (n : ℤ)
      → (ltb_ℤ n (pos 0) || ltb_ℤ (count_at m name inst.service_id) n) ≡ false
      → Move i m (loading name inst rest best n) quiet m (scanning name rest best n)
  find_none : (name : String) (n : ℤ) → Move i m (scanning name [] none n) quiet m idle
  choose :
      (name : String) (inst : Instance) (n : ℤ)
      → m.lock ≡ none
      → Move i m
          (scanning name [] (some inst) n)
          quiet
          (modify name (λ c. get_or_create c inst.service_id) m)
          (adding name inst)
  add :
      (name : String) (inst : Instance)
      → Move i m
          (adding name inst)
          (added name inst.service_id)
          (modify name (add_to inst.service_id (pos 1)) m)
          (counted name inst)
  record_it :
      (name : String) (inst : Instance)
      → m.lock ≡ none
      → Move i m (counted name inst) quiet (record m { lb = record_request m.lb name inst }) idle
  call_report :
      (id : String) (result : RequestResult)
      → m.lock ≡ none
      → Move i m idle quiet
          (record m { lock = some i })
          (reporting id (counted_services m.lb.connection_count) result)
  leave_count :
      (id name : String) (rest : List String) (result : RequestResult)
      → ltb_ℤ (pos 0) (count_at m name id) ≡ false
      → Move i m (reporting id (name ∷ rest) result) quiet m (reporting id rest result)
  check :
      (id name : String) (rest : List String) (result : RequestResult)
      → ltb_ℤ (pos 0) (count_at m name id) ≡ true
      → Move i m (reporting id (name ∷ rest) result) quiet m (releasing id name rest result)
  release_one :
      (id name : String) (rest : List String) (result : RequestResult)
      → Move i m
          (releasing id name rest result)
          (released name id)
          (modify name (add_to id (negsuc 0)) m)
          (reporting id rest result)
  finish_report :
      (id : String) (result : RequestResult)
      → Move i m (reporting id [] result) quiet (report_stats id result m) idle

-- The threads over one load balancer.
pub record System : Type 0 where
  pub memory : Memory
  pub pc : ℕ → Pc

abbrev pub set_pc : (ℕ → Pc) → ℕ → Pc → ℕ → Pc
set_pc pc i p k = if k == i then p else pc k

-- One move of one thread, with its number and its effect.
pub data Step (s : System) : ℕ → Effect → System → Type 0 where
  pick :
      (i : ℕ) (e : Effect) (m : Memory) (p p' : Pc)
      → s.pc i ≡ p
      → Move i s.memory p e m p'
      → Step s i e (record { memory = m; pc = set_pc s.pc i p' })

-- Any number of moves, with the threads and the effects in order.
pub data Steps : System → List (ℕ × Effect) → System → Type 0 where
  done : (s : System) → Steps s [] s
  next :
      (s t u : System) (i : ℕ) (e : Effect) (es : List (ℕ × Effect))
      → Step s i e t
      → Steps t es u
      → Steps s ((i, e) ∷ es) u

-- A state in which no call is running.
abbrev pub at_rest : LoadBalancer → System
at_rest lb = record { memory = record { lb = lb; lock = none }; pc = λ i. idle }

-- The sum that an effect brings to a counter.
unfoldable pub applied : Effect → String → String → ℤ → ℤ
applied quiet name j v = v
applied (added name' id) name j v = if str_eq name' name && str_eq id j then add64 v (pos 1) else v
applied (released name' id) name j v =
    if str_eq name' name && str_eq id j then add64 v (negsuc 0) else v

pub count_at-modify :
    (name' : String) (f : Dict ℤ → Dict ℤ) (m : Memory) (name j : String)
    → count_at (modify name' f m) name j ≡ (
        if str_eq name' name
        then count_of j (f (counts_of name' m.lb.connection_count))
        else count_at m name j)
count_at-modify name' f m name j = ground (
  arith,
  counts_of-insert name' name (f (counts_of name' m.lb.connection_count)) m.lb.connection_count,
)
