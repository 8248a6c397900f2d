-- ===== src/Router/Selection.antt =====
-- What `Select` returns: a candidate, whenever there is one.
use toska_mesh.Types.{unknown, healthy, status_eq, status_eq_iff}
use toska_mesh.Prelude.{
  ℕ, zero, suc, ◌-◌, ◌%◌, ◌^◌, ◌<◌, String, ◌≡◌, refl, sym, ap, ◌∙◌, ◌≢◌, ◌⊎◌, inl, inr, Bool,
  false, not, ◌||◌, Option, none, some, List, [], ◌∷◌, ◌++◌, arith, eq_iff, if◌then◌else◌, length,
  get_elem?, replicate, keep, null, All, get_elem?_total, In, get_elem?-In, In-append, In-replicate,
  In-keep, null-cases, All-map,
}
use toska_mesh.Prelude.Int.{ℤ, pos, negsuc, ltb_ℤ}
use toska_mesh.Prelude.Dict.{Dict}
use toska_mesh.Router.{
  Strategy, round_robin, least_connections, random, weighted_round_robin, ip_hash, Instance,
  Context,
}
use toska_mesh.Router.Strategies.{
  filter_healthy, filter_non_unknown, resolve_strategy, abs64, pick_mod, weight, expand, fnv1a,
  Random, IsRandom, hash_key, select_ip_hash, select_random,
}
use toska_mesh.Router.Tracking.{count_of}
use toska_mesh.Router.Balancer.{
  LoadBalancer, select_round_robin, get_or_create, find_least, counts_of, select_least_connections,
  select_weighted_round_robin, dispatch, candidates_of, Fetched, fetched, fetch_error, Selection,
  selected, select_error, record_selected, select_among, select,
}

pick_mod-In : (n : ℤ) (xs : List Instance) (x : Instance) → pick_mod n xs ≡ some x → In x xs
unfolding pick_mod
pick_mod-In (pos n) xs x h = get_elem?-In xs (n % length xs) x h
pick_mod-In (negsuc n) xs x h = ground (arith, get_elem?-In xs 0 x)

expand-In : (x : Instance) (xs : List Instance) → In x (expand xs) → In x xs
unfolding expand
expand-In x [] h = h
expand-In x (y ∷ ys) h = elim (In-append x (replicate (weight y) y) (expand ys) h) [
  | inl k ↦ inl (In-replicate (weight y) x y k)
  | inr k ↦ inr (expand-In x ys k)
]

find_least-In :
    (counts : Dict ℤ) (best : Option Instance) (n : ℤ) (xs : List Instance) (x : Instance)
    → (find_least counts best n xs).1 ≡ some x
    → (best ≡ some x) ⊎ In x xs
unfolding find_least
find_least-In counts best n [] x h = inl h
find_least-In counts best n (y ∷ ys) x h =
    let counts' = get_or_create counts y.service_id in
    let v = count_of y.service_id counts' in
    let better = ltb_ℤ n (pos 0) || ltb_ℤ v n in
    elim (find_least-In counts' (if better then some y else best) (if better then v else n) ys x
      h) [ inl e ↦ ground arith | inr k ↦ inr (inr k) ]

-- Each strategy picks one of the candidates that it is given.
dispatch-In :
    (s : Strategy) (lb : LoadBalancer) (name : String) (xs : List Instance) (ctx : Context)
    (r : Random) (x : Instance)
    → (dispatch s lb name xs ctx r).1 ≡ some x
    → In x xs
unfolding dispatch select_least_connections select_round_robin select_weighted_round_robin
    select_ip_hash select_random
dispatch-In least_connections lb name xs ctx r x h =
    elim (find_least-In (counts_of name lb.connection_count) none (negsuc 0) xs x h) [
      | inl e ↦ cc
      | inr k ↦ k
    ]
dispatch-In weighted_round_robin lb name xs ctx r x h =
    expand-In x xs (pick_mod-In _ (expand xs) x h)
dispatch-In ip_hash lb name xs ctx r x h = get_elem?-In xs _ x h
dispatch-In random lb name xs ctx r x h = get_elem?-In xs _ x h
dispatch-In round_robin lb name xs ctx r x h = pick_mod-In _ xs x h

-- healthy, or of known health while none of the instances is healthy
abbrev pub Fits : List Instance → Instance → Type 0
Fits instances x =
    (x.status ≡ healthy) ⊎ ((x.status ≢ unknown) × All (λ i. i.status ≢ healthy) instances)

keep-nil : (p : Instance → Bool) (xs : List Instance) → keep p xs ≡ [] → All (λ x. p x ≡ false) xs
keep-nil p [] h = tt
keep-nil p (x ∷ xs) h = ground (arith, keep-nil p xs)

none_healthy :
    (instances : List Instance)
    → filter_healthy instances ≡ []
    → All (λ i. i.status ≢ healthy) instances
unfolding filter_healthy
none_healthy instances e =
    All-map _ _ instances (λ i f. ground (arith, status_eq_iff i.status healthy))
      (keep-nil (λ i. status_eq i.status healthy) instances e)

candidates-Fits :
    (instances : List Instance) (x : Instance)
    → In x (candidates_of instances)
    → In x instances × Fits instances x
unfolding candidates_of filter_healthy filter_non_unknown
candidates-Fits instances x h = elim (null-cases (filter_healthy instances)) [
  | inl e ↦
      let k =
        In-keep (λ i. not (status_eq i.status unknown)) x instances (rw (e, candidates_of) at h) in
      (k.0, inr (ground arith, none_healthy instances e))
  | inr n ↦
      let k = In-keep (λ i. status_eq i.status healthy) x instances (ground (arith)) in
      (k.0, inl ((status_eq_iff x.status healthy).0 k.1))
]

get_elem?-some : (xs : List Instance) (i : ℕ) → i < length xs → get_elem? xs i ≢ none
get_elem?-some xs i h e = let (x, p) = get_elem?_total xs i h in cc

pick_mod-some : (n : ℤ) (xs : List Instance) → xs ≢ [] → pick_mod (abs64 n) xs ≢ none
unfolding pick_mod abs64
pick_mod-some n [] h = absurd (h refl)
pick_mod-some (pos n) (x ∷ xs) h = get_elem?-some (x ∷ xs) _ (omega arith)
pick_mod-some (negsuc n) (x ∷ xs) h = ground (
  arith,
  get_elem?-some (x ∷ xs) ((2 ^ 63 - 1) % length (x ∷ xs)),
  get_elem?-some (x ∷ xs) (suc n % length (x ∷ xs)),
)

weight-pos : (x : Instance) → weight x ≢ 0
unfolding weight
weight-pos x = ground arith

replicate-ne-nil : (n : ℕ) (x : Instance) (ys : List Instance) → n ≢ 0 → replicate n x ++ ys ≢ []
replicate-ne-nil zero x ys h e = absurd (h refl)
replicate-ne-nil (suc n) x ys h e = cc

expand-ne-nil : (xs : List Instance) → xs ≢ [] → expand xs ≢ []
unfolding expand
expand-ne-nil [] h = absurd (h refl)
expand-ne-nil (x ∷ xs) h = replicate-ne-nil (weight x) x (expand xs) (weight-pos x)

find_least-some :
    (counts : Dict ℤ) (b : Instance) (n : ℤ) (xs : List Instance)
    → (find_least counts (some b) n xs).1 ≢ none
unfolding find_least
find_least-some counts b n [] h = cc
find_least-some counts b n (y ∷ ys) h = ground (
  arith,
  find_least-some (get_or_create counts y.service_id) b n ys,
  find_least-some (get_or_create counts y.service_id) y
      (count_of y.service_id (get_or_create counts y.service_id)) ys,
)

dispatch-some :
    (s : Strategy) (lb : LoadBalancer) (name : String) (xs : List Instance) (ctx : Context)
    (r : Random)
    → xs ≢ []
    → IsRandom r
    → (dispatch s lb name xs ctx r).1 ≢ none
unfolding dispatch select_least_connections select_round_robin select_weighted_round_robin
    select_ip_hash select_random find_least
dispatch-some s lb name [] ctx r h k = absurd (h refl)
dispatch-some least_connections lb name (x ∷ xs) ctx r h k = find_least-some _ x _ xs
dispatch-some weighted_round_robin lb name (x ∷ xs) ctx r h k =
    pick_mod-some _ _ (expand-ne-nil (x ∷ xs) h)
dispatch-some ip_hash lb name (x ∷ xs) ctx r h k = get_elem?-some (x ∷ xs) _ (omega arith)
dispatch-some random lb name (x ∷ xs) ctx r h k =
    get_elem?-some (x ∷ xs) _ (k.int_n_range _ (omega arith))
dispatch-some round_robin lb name (x ∷ xs) ctx r h k = pick_mod-some _ (x ∷ xs) h

record_selected_lem :
    (d : LoadBalancer × Option Instance) (name : String) → (record_selected d name).1 ≡ selected d.1
record_selected_lem (lb, none) name = refl
record_selected_lem (lb, some x) name = refl

-- what `Select` returns of a list of candidates
abbrev IsAnswer : List Instance → Selection → Type 0
IsAnswer cs (selected none) = cs ≡ []
IsAnswer cs (selected (some x)) = In x cs
IsAnswer cs (select_error e) = ⊥

picked-IsAnswer :
    (cs : List Instance) (o : Option Instance)
    → ((x : Instance) → o ≡ some x → In x cs)
    → (cs ≢ [] → o ≢ none)
    → cs ≢ []
    → IsAnswer cs (selected o)
picked-IsAnswer cs none i n h = absurd (n h refl)
picked-IsAnswer cs (some x) i n h = i x refl

select_among-IsAnswer :
    (lb : LoadBalancer) (name : String) (cs : List Instance) (ctx : Context) (r : Random)
    → IsRandom r
    → IsAnswer cs (select_among lb name cs ctx r).1
unfolding select_among
select_among-IsAnswer lb name [] ctx r k = refl
select_among-IsAnswer lb name (c ∷ cs) ctx r k =
    let s = resolve_strategy (c ∷ cs) in
    rw (record_selected_lem (dispatch s lb name (c ∷ cs) ctx r) name) (
      picked-IsAnswer (c ∷ cs) _ (dispatch-In s lb name (c ∷ cs) ctx r)
        (λ h. dispatch-some s lb name (c ∷ cs) ctx r h k) (λ e. cc))

-- What `Select` may return when the provider answers with `instances`: an instance of the list that
-- is healthy, or of known health when none is healthy; nil only if the health of all is unknown.
abbrev pub IsSelection : List Instance → Selection → Type 0
IsSelection instances (selected none) = All (λ i. i.status ≡ unknown) instances
IsSelection instances (selected (some x)) = In x instances × Fits instances x
IsSelection instances (select_error e) = ⊥

no_candidates :
    (instances : List Instance)
    → candidates_of instances ≡ []
    → All (λ i. i.status ≡ unknown) instances
unfolding candidates_of filter_healthy filter_non_unknown
no_candidates instances h =
    All-map _ _ instances (λ i e. ground arith)
      (keep-nil (λ i. not (status_eq i.status unknown)) instances (ground arith))

answer-IsSelection :
    (instances : List Instance) (s : Selection)
    → IsAnswer (candidates_of instances) s
    → IsSelection instances s
answer-IsSelection instances (selected none) h = no_candidates instances h
answer-IsSelection instances (selected (some x)) h = candidates-Fits instances x h
answer-IsSelection instances (select_error e) h = h

-- When the provider answers and the random numbers are in their documented range, `Select` returns
-- an instance of the provider's list that is healthy, or one of known health when none is healthy;
-- it returns nil only if the health of every instance is unknown, and it does not fail.
pub select-IsSelection :
    (provider : String → Fetched) (lb : LoadBalancer) (name : String) (ctx : Context) (r : Random)
    (instances : List Instance)
    → provider name ≡ fetched instances
    → IsRandom r
    → IsSelection instances (select provider lb name ctx r).1
unfolding select
select-IsSelection provider lb name ctx r instances p k =
    rw (p, select)
      (answer-IsSelection instances _
        (select_among-IsAnswer lb name (candidates_of instances) ctx r k))

-- When the provider fails, `Select` returns its error and changes nothing.
pub select-error :
    (provider : String → Fetched) (lb : LoadBalancer) (name e : String) (ctx : Context) (r : Random)
    → provider name ≡ fetch_error e
    → select provider lb name ctx r ≡ (lb, select_error e)
unfolding select
select-error provider lb name e ctx r p = rw (p, select)

hash_key-session :
    (ctx : Context) (r : Random) → ctx.session_id ≢ "" → hash_key ctx r ≡ ctx.session_id
unfolding hash_key
hash_key-session ctx r n = ground (arith, eq_iff ctx.session_id "")

select_among-session :
    (lb : LoadBalancer) (name : String) (cs : List Instance) (ctx : Context) (r : Random)
    → resolve_strategy cs ≡ ip_hash
    → ctx.session_id ≢ ""
    → (select_among lb name cs ctx r).1 ≡ (
        if null cs
        then selected none
        else selected (get_elem? cs (fnv1a ctx.session_id % length cs)))
unfolding select_among dispatch select_ip_hash
select_among-session lb name [] ctx r s n = refl
select_among-session lb name (c ∷ cs) ctx r s n = rw (
  s,
  record_selected_lem (dispatch ip_hash lb name (c ∷ cs) ctx r) name,
  hash_key-session ctx r n,
)

-- Two calls with one session ID, which is not empty, and an `ip_hash` service whose provider gives
-- the same list both times return the same instance, whatever the balancers, the other request data
-- and the random numbers.
pub select-session :
    (provider : String → Fetched) (lb lb' : LoadBalancer) (name : String) (ctx ctx' : Context)
    (r r' : Random) (instances : List Instance)
    → provider name ≡ fetched instances
    → resolve_strategy (candidates_of instances) ≡ ip_hash
    → ctx.session_id ≡ ctx'.session_id
    → ctx.session_id ≢ ""
    → (select provider lb name ctx r).1 ≡ (select provider lb' name ctx' r').1
unfolding select
select-session provider lb lb' name ctx ctx' r r' instances p s e n =
    let cs = candidates_of instances in
    rw (p, select)
      (select_among-session lb name cs ctx r s n
        ∙ ap (λ k. if null cs then selected none else selected (get_elem? cs (fnv1a k % length cs)))
            e
        ∙ sym (select_among-session lb' name cs ctx' r' s (λ q. n (e ∙ q))))
