-- ===== src/Router/Accounting.antt =====
-- What `ReportResult` and `Stats` do with the counters.
use native.Mathlib.Nat.{add-zero}
use toska_mesh.Prelude.{
  ℕ, suc, ◌+◌, ◌≤◌, ◌<◌, String, ◌≡◌, refl, sym, ap, ◌∙◌, subst, Bool, true, false, Option, none,
  some, List, [], ◌∷◌, arith, str_eq, eq_iff, if◌then◌else◌, length,
}
use toska_mesh.Prelude.Int.{ℤ, pos, negsuc, ◌≤ℤ◌, ltb_ℤ, max_int64, add64}
use toska_mesh.Prelude.Dict.{Dict, lookup, lookup-insert}
use toska_mesh.Router.{
  Strategy, round_robin, least_connections, random, weighted_round_robin, ip_hash, Instance,
  Context, RequestResult,
}
use toska_mesh.Router.Tracking.{count_of}
use toska_mesh.Router.Balancer.{
  LoadBalancer, select_round_robin, find_least, counts_of, counts_of-insert, count_best,
  select_least_connections, select_weighted_round_robin, record_request, dispatch, candidates_of,
  Fetched, fetched, fetch_error, record_selected, select_among, select, release, release_all,
  report_result,
}
use toska_mesh.Router.Least.{
  count_of-find_least, load, count_of-count_best, counts_before, select_least_connections_min,
}
use toska_mesh.Router.Strategies.{resolve_strategy, Random}

-- one less, but not below 0
abbrev pub decrement : ℤ → ℤ
decrement v = if ltb_ℤ (pos 0) v then add64 v (negsuc 0) else v

count_of-release :
    (id j : String) (m : Dict ℤ)
    → count_of j (release id m) ≡ (if str_eq id j then decrement (count_of j m) else count_of j m)
unfolding release count_of add64
count_of-release id j m =
    ground (arith, eq_iff id j, lookup-insert id j (add64 (count_of id m) (negsuc 0)) m)

counts_of-release_all :
    (id name : String) (m : Dict (Dict ℤ))
    → counts_of name (release_all id m) ≡ release id (counts_of name m)
unfolding release_all counts_of lookup release
counts_of-release_all id name [] = refl
counts_of-release_all id name ((k, counts) ∷ m) = ground (arith, counts_of-release_all id name m)

-- `ReportResult` takes one off the count of its ID in every service, unless the count is 0 or less,
-- and changes no other count.
pub report_result-count :
    (lb : LoadBalancer) (id : String) (result : RequestResult) (name j : String)
    → count_of j (counts_of name (report_result lb id result).connection_count) ≡ (
        if str_eq id j
        then decrement (count_of j (counts_of name lb.connection_count))
        else count_of j (counts_of name lb.connection_count))
unfolding report_result
report_result-count lb id result name j =
    ap (count_of j) (counts_of-release_all id name lb.connection_count)
    ∙ count_of-release id j (counts_of name lb.connection_count)

decrement-increment : (n : ℕ) → n < max_int64 → decrement (add64 (pos n) (pos 1)) ≡ pos n
unfolding add64
decrement-increment n h = ground arith

-- Reporting the result of a request that least-connections routed restores the counts of the service
-- to what they were before the request, if none was negative and that of the ID not the largest.
pub report_result-select :
    (lb : LoadBalancer) (name : String) (xs : List Instance) (x : Instance) (result : RequestResult)
    (n : ℕ) (j : String)
    → ((i : String) → pos 0 ≤ℤ count_of i (counts_before lb name))
    → (select_least_connections lb name xs).1 ≡ some x
    → load (counts_before lb name) x ≡ pos n
    → n < max_int64
    → count_of j (
        counts_before
          (report_result (select_least_connections lb name xs).0 x.service_id result)
          name)
      ≡ count_of j (counts_before lb name)
report_result-select lb name xs x result n j h e en b =
    let sel = (select_least_connections_min lb name xs x h e).1 j in
    report_result-count (select_least_connections lb name xs).0 x.service_id result name j
    ∙ ground (arith, sel, decrement-increment n b, eq_iff x.service_id j)

-- Every connection count lies between 0 and k.
pub record IsCounted (k : ℕ) (lb : LoadBalancer) : Type 0 where
  pub nonneg : (name j : String) → pos 0 ≤ℤ count_of j (counts_of name lb.connection_count)
  pub capped : (name j : String) → count_of j (counts_of name lb.connection_count) ≤ℤ pos k

-- The states that a run of calls leads through; each call of `Select` has its own environment.
pub data Call : Type 0 where
  call_select : (String → Fetched) → String → Context → Random → Call
  call_report : String → RequestResult → Call

unfoldable pub step : LoadBalancer → Call → LoadBalancer
step lb (call_select provider name ctx r) = (select provider lb name ctx r).0
step lb (call_report id result) = report_result lb id result

unfoldable pub run : LoadBalancer → List Call → LoadBalancer
unfolding step
run lb [] = lb
run lb (c ∷ cs) = run (step lb c) cs

IsCounted-more : (k : ℕ) (lb : LoadBalancer) → IsCounted k lb → IsCounted (suc k) lb
IsCounted-more k lb v = record {
  nonneg = v.nonneg;
  capped = λ name j. omega (arith, v.capped name j);
}

abbrev InRange : ℕ → ℤ → Type 0
InRange k v = (pos 0 ≤ℤ v) × (v ≤ℤ pos k)

decremented-InRange :
    (k : ℕ) (b : Bool) (v : ℤ)
    → InRange k v
    → k ≤ max_int64
    → InRange k (if b then decrement v else v)
unfolding add64
decremented-InRange k b v h m = ground arith

IsCounted-at :
    (k : ℕ) (lb : LoadBalancer) (name j : String)
    → IsCounted k lb
    → InRange k (count_of j (counts_of name lb.connection_count))
IsCounted-at k lb name j v = (v.nonneg name j, v.capped name j)

IsCounted-of :
    (k : ℕ) (lb : LoadBalancer)
    → ((name j : String) → InRange k (count_of j (counts_of name lb.connection_count)))
    → IsCounted k lb
IsCounted-of k lb h = record { nonneg = λ name j. (h name j).0; capped = λ name j. (h name j).1 }

report-IsCounted :
    (k : ℕ) (lb : LoadBalancer) (id : String) (result : RequestResult)
    → k ≤ max_int64
    → IsCounted k lb
    → IsCounted k (report_result lb id result)
report-IsCounted k lb id result m v = IsCounted-of k (report_result lb id result) λ name j.
    subst (InRange k) (sym (report_result-count lb id result name j))
      (decremented-InRange k (str_eq id j) _ (IsCounted-at k lb name j v) m)

incremented-InRange :
    (k : ℕ) (v w : ℤ) (b : Bool)
    → InRange k v
    → InRange k w
    → k < max_int64
    → InRange (suc k) (if b then add64 w (pos 1) else v)
unfolding add64
incremented-InRange k v w b h c m = ground arith

count_best-InRange :
    (k : ℕ) (m m' : Dict ℤ) (o : Option Instance) (j : String)
    → ((i : String) → count_of i m' ≡ count_of i m)
    → ((i : String) → InRange k (count_of i m))
    → k < max_int64
    → InRange (suc k) (count_of j (count_best m' o))
count_best-InRange k m m' none j same h b = ground (arith, same j, h j)
count_best-InRange k m m' (some x) j same h b =
    subst (InRange (suc k)) (sym (count_of-count_best m m' (some x) x j same refl))
      (incremented-InRange k _ _ (str_eq x.service_id j) (h j) (h x.service_id) b)

InRange-if :
    (k : ℕ) (b : Bool) (m m' : Dict ℤ) (j : String)
    → InRange (suc k) (count_of j m)
    → InRange k (count_of j m')
    → InRange (suc k) (count_of j (if b then m else m'))
InRange-if k true m m' j h h' = h
InRange-if k false m m' j h h' = omega arith

least-IsCounted :
    (k : ℕ) (lb : LoadBalancer) (name : String) (xs : List Instance)
    → k < max_int64
    → IsCounted k lb
    → IsCounted (suc k) (select_least_connections lb name xs).0
unfolding select_least_connections
least-IsCounted k lb name xs b v =
    let m = counts_of name lb.connection_count in
    let loop = find_least m none (negsuc 0) xs in
    let best = count_best loop.0 loop.1 in
    IsCounted-of (suc k) (select_least_connections lb name xs).0 λ svc j.
      subst (λ d. InRange (suc k) (count_of j d))
        (sym (counts_of-insert name svc best lb.connection_count))
        (InRange-if k (str_eq name svc) best (counts_of svc lb.connection_count) j
          (count_best-InRange k m loop.0 loop.1 j (count_of-find_least m none (negsuc 0) xs)
            (λ i. IsCounted-at k lb name i v) b)
          (IsCounted-at k lb svc j v))

dispatch-IsCounted :
    (k : ℕ) (s : Strategy) (lb : LoadBalancer) (name : String) (xs : List Instance) (ctx : Context)
    (r : Random)
    → k < max_int64
    → IsCounted k lb
    → IsCounted (suc k) (dispatch s lb name xs ctx r).0
unfolding dispatch select_weighted_round_robin select_round_robin
dispatch-IsCounted k least_connections lb name xs ctx r b v = least-IsCounted k lb name xs b v
dispatch-IsCounted k round_robin lb name xs ctx r b v =
    IsCounted-of (suc k) _ (λ n j. omega (arith, IsCounted-at k lb n j v))
dispatch-IsCounted k weighted_round_robin lb name xs ctx r b v =
    IsCounted-of (suc k) _ (λ n j. omega (arith, IsCounted-at k lb n j v))
dispatch-IsCounted k ip_hash lb name xs ctx r b v = IsCounted-more k lb v
dispatch-IsCounted k random lb name xs ctx r b v = IsCounted-more k lb v

record_selected-IsCounted :
    (k : ℕ) (d : LoadBalancer × Option Instance) (name : String)
    → IsCounted k d.0
    → IsCounted k (record_selected d name).0
unfolding record_request
record_selected-IsCounted k (lb, none) name v = v
record_selected-IsCounted k (lb, some x) name v = record { nonneg = v.nonneg; capped = v.capped }

fetched-IsCounted :
    (k : ℕ) (lb : LoadBalancer) (name : String) (xs : List Instance) (ctx : Context) (r : Random)
    → k < max_int64
    → IsCounted k lb
    → IsCounted (suc k) (select_among lb name xs ctx r).0
unfolding select_among
fetched-IsCounted k lb name [] ctx r b v = IsCounted-more k lb v
fetched-IsCounted k lb name (x ∷ xs) ctx r b v =
    record_selected-IsCounted (suc k) _ name
      (dispatch-IsCounted k (resolve_strategy (x ∷ xs)) lb name (x ∷ xs) ctx r b v)

select-IsCounted :
    (k : ℕ) (provider : String → Fetched) (lb : LoadBalancer) (name : String) (ctx : Context)
    (r : Random) (f : Fetched)
    → provider name ≡ f
    → k < max_int64
    → IsCounted k lb
    → IsCounted (suc k) (select provider lb name ctx r).0
unfolding select
select-IsCounted k provider lb name ctx r (fetched xs) p b v =
    rw (p, select) (fetched-IsCounted k lb name (candidates_of xs) ctx r b v)
select-IsCounted k provider lb name ctx r (fetch_error e) p b v =
    rw (p, select) (IsCounted-more k lb v)

-- Whatever the calls of `Select` and `ReportResult`, a connection count that starts between 0 and k
-- lies between 0 and k plus the number of calls; so none is ever negative. The number of calls is
-- taken to stay below what an int64 holds.
pub run-IsCounted :
    (k : ℕ) (lb : LoadBalancer) (cs : List Call)
    → IsCounted k lb
    → k + length cs ≤ max_int64
    → IsCounted (k + length cs) (run lb cs)
unfolding run
run-IsCounted k lb [] v b = rw (add-zero k) v
run-IsCounted k lb (call_select provider name ctx r ∷ cs) v b =
    let ih =
      run-IsCounted (suc k) (select provider lb name ctx r).0 cs
        (select-IsCounted k provider lb name ctx r (provider name) refl (omega arith) v)
        (omega arith) in
    let e : k + suc (length cs) ≡ suc k + length cs = omega arith in rw e ih
run-IsCounted k lb (call_report id result ∷ cs) v b =
    let ih =
      run-IsCounted (suc k) (report_result lb id result) cs
        (IsCounted-more k _ (report-IsCounted k lb id result (omega arith) v)) (omega arith) in
    let e : k + suc (length cs) ≡ suc k + length cs = omega arith in rw e ih
