-- ===== src/Router/Least.antt =====
-- Least-connections picks a candidate with the fewest open connections, and counts one more for it.
use toska_mesh.Prelude.{
  String, ◌≡◌, refl, ap, ◌∙◌, inl, inr, ◌||◌, Option, none, some, List, [], ◌∷◌, arith, str_eq,
  eq_iff, eq_refl, if◌then◌else◌, Bool-cases, All,
}
use toska_mesh.Prelude.Int.{ℤ, pos, negsuc, ◌≤ℤ◌, ltb_ℤ, add64}
use toska_mesh.Prelude.Dict.{Dict, lookup-insert}
use toska_mesh.Router.{Instance}
use toska_mesh.Router.Tracking.{count_of, count_of-insert}
use toska_mesh.Router.Balancer.{
  LoadBalancer, get_or_create, find_least, counts_of, counts_of-insert, count_best,
  select_least_connections,
}

pub count_of-get_or_create :
    (m : Dict ℤ) (k j : String) → count_of j (get_or_create m k) ≡ count_of j m
unfolding get_or_create count_of
count_of-get_or_create m k j = ground (arith, lookup-insert k j (pos 0) m, eq_iff k j)

pub count_of-find_least :
    (m : Dict ℤ) (best : Option Instance) (n : ℤ) (xs : List Instance) (j : String)
    → count_of j (find_least m best n xs).0 ≡ count_of j m
unfolding find_least
count_of-find_least m best n [] j = refl
count_of-find_least m best n (y ∷ ys) j =
    let m' = get_or_create m y.service_id in
    let v = count_of y.service_id m' in
    let better = ltb_ℤ n (pos 0) || ltb_ℤ v n in
    count_of-find_least m' (if better then some y else best) (if better then v else n) ys j
    ∙ count_of-get_or_create m y.service_id j

-- the number of open connections that is counted for an instance
abbrev pub load : Dict ℤ → Instance → ℤ
load m x = count_of x.service_id m

abbrev IsNonNeg : Dict ℤ → Type 0
IsNonNeg m = (j : String) → pos 0 ≤ℤ count_of j m

-- `m'` is the map so far: it has grown, with no change of a count.
find_least_min :
    (m m' : Dict ℤ) (b : Instance) (n : ℤ) (xs : List Instance) (x : Instance)
    → IsNonNeg m
    → ((j : String) → count_of j m' ≡ count_of j m)
    → n ≡ load m b
    → (find_least m' (some b) n xs).1 ≡ some x
    → (load m x ≤ℤ load m b) × All (λ y. load m x ≤ℤ load m y) xs
unfolding find_least
find_least_min m m' b n [] x h same en e = ground arith
find_least_min m m' b n (y ∷ ys) x h same en e =
    let m'' = get_or_create m' y.service_id in
    let same' : (j : String) → count_of j m'' ≡ count_of j m =
      λ j. count_of-get_or_create m' y.service_id j ∙ same j in
    let ev : count_of y.service_id m'' ≡ load m y = same' y.service_id in
    elim (Bool-cases (ltb_ℤ n (pos 0) || ltb_ℤ (count_of y.service_id m'') n)) [
      | inl t ↦
          let ih =
            find_least_min m m'' y (count_of y.service_id m'') ys x h same' ev
              (rw (t, find_least) at e) in
          (ground (arith, h b.service_id), (ih.0, ih.1))
      | inr f ↦
          let ih = find_least_min m m'' b n ys x h same' en (rw (f, find_least) at e) in
          (ih.0, (ground arith, ih.1))
    ]

-- the loop of `selectLeastConnections` from its start
find_first :
    (m : Dict ℤ) (xs : List Instance) (x : Instance)
    → IsNonNeg m
    → (find_least m none (negsuc 0) xs).1 ≡ some x
    → All (λ y. load m x ≤ℤ load m y) xs
unfolding find_least
find_first m [] x h e = tt
find_first m (y ∷ ys) x h e =
    find_least_min m (get_or_create m y.service_id) y _ ys x h
      (count_of-get_or_create m y.service_id) (count_of-get_or_create m y.service_id y.service_id) e

pub count_of-count_best :
    (m m' : Dict ℤ) (o : Option Instance) (x : Instance) (j : String)
    → ((i : String) → count_of i m' ≡ count_of i m)
    → o ≡ some x
    → count_of j (count_best m' o)
      ≡ (if str_eq x.service_id j then add64 (load m x) (pos 1) else count_of j m)
count_of-count_best m m' o x j same e =
    let m'' = get_or_create m' x.service_id in
    let same' : (i : String) → count_of i m'' ≡ count_of i m =
      λ i. count_of-get_or_create m' x.service_id i ∙ same i in
    rw e (
      count_of-insert x.service_id j (add64 (count_of x.service_id m'') (pos 1)) m''
      ∙ cc (same' x.service_id, same' j))

-- What `selectLeastConnections` counted for a service before the call.
abbrev pub counts_before : LoadBalancer → String → Dict ℤ
counts_before lb name = counts_of name lb.connection_count

-- With no negative count, the instance that `selectLeastConnections` picks has at most as many open
-- connections as any other candidate, and afterwards its ID counts one more and no other ID changes.
pub select_least_connections_min :
    (lb : LoadBalancer) (name : String) (xs : List Instance) (x : Instance)
    → ((j : String) → pos 0 ≤ℤ count_of j (counts_before lb name))
    → (select_least_connections lb name xs).1 ≡ some x
    → All (λ y. load (counts_before lb name) x ≤ℤ load (counts_before lb name) y) xs
      × ((j : String)
          → count_of j (counts_before (select_least_connections lb name xs).0 name) ≡ (
              if str_eq x.service_id j
              then add64 (load (counts_before lb name) x) (pos 1)
              else count_of j (counts_before lb name)))
unfolding select_least_connections
select_least_connections_min lb name xs x h e =
    let m = counts_before lb name in
    let loop = find_least m none (negsuc 0) xs in
    (
      find_first m xs x h e,
      λ j.
          ap (count_of j)
            (counts_of-insert name name (count_best loop.0 loop.1) lb.connection_count)
          ∙ simp eq_refl (
              count_of-count_best m loop.0 loop.1 x j (count_of-find_least m none (negsuc 0) xs) e),
    )
