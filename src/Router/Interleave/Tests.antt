-- ===== src/Router/Interleave/Tests.antt =====
-- Interleaved calls of the load balancer at concrete inputs.
use toska_mesh.Prelude.{
  ℕ, ◌+◌, ◌≤◌, String, ◌≡◌, refl, ◌≢◌, none, some, List, [], ◌∷◌, arith, length,
}
use toska_mesh.Prelude.Int.{pos, negsuc, pos_part, ◌≤ℤ◌, add64}
use toska_mesh.Prelude.Dict.{lookup, insert}
use toska_mesh.Types.{healthy}
use toska_mesh.Router.{Instance}
use toska_mesh.Router.Tracking.{count_of}
use toska_mesh.Router.Balancer.{LoadBalancer, get_or_create, counts_of}
use toska_mesh.Router.Interleave.{
  Memory, count_at, idle, scanning, loading, adding, counted, Effect, quiet, added, modify, add_to,
  call_select, look_up, load_better, choose, add, System, set_pc, pick, Steps, done, next, at_rest,
}
use toska_mesh.Router.Interleave.Safe.{interleaved_counts, adds, takes, total, interleaved_ledger}
use toska_mesh.Router.Interleave.Ends.{all_moves_left, Onward, calls_end}
use toska_mesh.Router.Interleave.Progress.{Moves}

abbrev inst : Instance
inst = record {
  service_name = "orders";
  service_id = "a";
  address = "10.0.0.1";
  port = pos 8080;
  status = healthy;
  metadata = [];
  registered_at = 1;
  last_health_check = 0;
}

abbrev empty : LoadBalancer
empty = record { round_robin_idx = []; connection_count = []; stats = [] }

abbrev m0 : Memory
m0 = record { lb = empty; lock = none }

abbrev m1 : Memory
m1 = modify "orders" (λ c. c) m0

abbrev m2 : Memory
m2 = modify "orders" (λ c. get_or_create c "a") m1

abbrev m3 : Memory
m3 = modify "orders" (λ c. c) m2

abbrev m4 : Memory
m4 = modify "orders" (λ c. get_or_create c "a") m3

abbrev m5 : Memory
m5 = modify "orders" (add_to "a" (pos 1)) m4

abbrev effects : List (ℕ × Effect)
effects =
    (0, quiet) ∷ (0, quiet) ∷ (1, quiet) ∷ (0, quiet) ∷ (0, quiet) ∷ (0, added "orders" "a") ∷ []

-- Thread 0 has selected the instance, and thread 1 has started a call.
abbrev after : System
after = record {
  memory = m5;
  pc =
      set_pc
        (set_pc
          (set_pc
            (set_pc
              (set_pc (set_pc (λ i. idle) 0 (scanning "orders" (inst ∷ []) none (negsuc 0))) 0
                (loading "orders" inst [] none (negsuc 0)))
              1 (scanning "orders" (inst ∷ []) none (negsuc 0)))
            0 (scanning "orders" [] (some inst) (count_at m3 "orders" "a")))
          0 (adding "orders" inst))
        0 (counted "orders" inst);
}

selected_once : Steps (at_rest empty) effects after
selected_once = next _ _ _ _ _ _ (pick 0 _ _ _ _ refl (call_select "orders" (inst ∷ []) refl)) (
    next _ _ _ _ _ _ (pick 0 _ _ _ _ refl (look_up "orders" inst [] none (negsuc 0) refl)) (
      next _ _ _ _ _ _ (pick 1 _ _ _ _ refl (call_select "orders" (inst ∷ []) refl)) (
        next _ _ _ _ _ _ (pick 0 _ _ _ _ refl (load_better "orders" inst [] none (negsuc 0) refl)) (
          next _ _ _ _ _ _ (pick 0 _ _ _ _ refl (choose "orders" inst _ refl))
            (next _ _ _ _ _ _ (pick 0 _ _ _ _ refl (add "orders" inst)) (done _))))))

none_open :
    (name j : String)
    → (pos 0 ≤ℤ count_of j (counts_of name empty.connection_count))
      × (count_of j (counts_of name empty.connection_count) ≤ℤ pos 0)
unfolding count_of counts_of lookup
none_open name j = omega arith

interleaved_counts_example :
    (pos 0 ≤ℤ count_at after.memory "orders" "a")
    × (count_at after.memory "orders" "a" ≤ℤ pos (0 + length effects))
interleaved_counts_example =
    interleaved_counts empty after effects 0 "orders" "a" selected_once none_open (omega arith)

interleaved_ledger_example :
    pos_part (count_at after.memory "orders" "a") + total (takes "orders" "a") effects
    ≡ pos_part (count_of "a" (counts_of "orders" empty.connection_count))
      + total (adds "orders" "a") effects
interleaved_ledger_example =
    interleaved_ledger empty after effects 0 "orders" "a" selected_once none_open (omega arith)

calls_end_example :
    ((k : ℕ) (t : System) → Onward 2 after k t → k ≤ all_moves_left 2 after.pc)
    × ((i : ℕ) → after.pc i ≢ idle → Moves after)
calls_end_example = calls_end empty after effects 2 selected_once

-- One move is left to thread 0, and five to thread 1.
six_left : all_moves_left 2 after.pc ≡ 6
six_left = refl

one_open : count_at after.memory "orders" "a" ≡ pos 1
unfolding count_of counts_of get_or_create lookup insert add64
one_open = refl
