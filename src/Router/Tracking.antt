-- ===== src/Router/Tracking.antt =====
-- internal/router/balancer.go: the statistics of one service ID, `serviceStats`.
use toska_mesh.Prelude.{ℕ, suc, ◌/◌, String, ◌≡◌, none, some, [], ◌∷◌, arith, str_eq, if◌then◌else◌}
use toska_mesh.Prelude.Int.{ℤ, pos, negsuc, sub_ℕ, add64}
use toska_mesh.Prelude.Dict.{Dict, lookup, insert, lookup-insert}
use toska_mesh.Router.{RequestResult}

pub record ServiceStats : Type 0 where
  pub service_name : String
  pub total_requests : ℤ
  pub successful_requests : ℤ
  pub failed_requests : ℤ
  pub total_response_nanos : ℤ
  pub instance_counts : Dict ℤ

-- `newServiceStats`
unfoldable pub new_service_stats : String → ServiceStats
new_service_stats service_name = record {
  service_name = service_name;
  total_requests = pos 0;
  successful_requests = pos 0;
  failed_requests = pos 0;
  total_response_nanos = pos 0;
  instance_counts = [];
}

-- `m[k]` on a map of numbers: 0 for a missing key
unfoldable pub count_of : String → Dict ℤ → ℤ
count_of k m = elim (lookup k m) [ none ↦ pos 0 | some v ↦ v ]

pub count_of-insert :
    (k j : String) (v : ℤ) (m : Dict ℤ)
    → count_of j (insert k v m) ≡ (if str_eq k j then v else count_of j m)
unfolding count_of
count_of-insert k j v m = ground (arith, lookup-insert k j v m)

-- `s.recordRequest(instanceID)`
unfoldable pub record_instance : ServiceStats → String → ServiceStats
record_instance s id = record s {
  total_requests = add64 s.total_requests (pos 1);
  instance_counts = insert id (add64 (count_of id s.instance_counts) (pos 1)) s.instance_counts;
}

-- `s.report(result)`
unfoldable pub report : ServiceStats → RequestResult → ServiceStats
report s result =
    let s' =
      if result.success
      then record s { successful_requests = add64 s.successful_requests (pos 1) }
      else record s { failed_requests = add64 s.failed_requests (pos 1) } in
    record s' { total_response_nanos = add64 s.total_response_nanos result.response_time }

-- The sums that `Stats` builds.
pub record Totals : Type 0 where
  pub requests : ℤ
  pub successes : ℤ
  pub failures : ℤ
  pub nanos : ℤ
  pub counts : Dict ℤ

abbrev pub no_totals : Totals
no_totals = record {
  requests = pos 0;
  successes = pos 0;
  failures = pos 0;
  nanos = pos 0;
  counts = [];
}

-- `for instID, count := range s.instanceCounts { instanceCounts[instID] += count }`
unfoldable pub add_counts : Dict ℤ → Dict ℤ → Dict ℤ
add_counts counts [] = counts
add_counts counts ((id, n) ∷ rest) =
    add_counts (insert id (add64 (count_of id counts) n) counts) rest

abbrev pub add_stats : Totals → ServiceStats → Totals
add_stats t s = record {
  requests = add64 t.requests s.total_requests;
  successes = add64 t.successes s.successful_requests;
  failures = add64 t.failures s.failed_requests;
  nanos = add64 t.nanos s.total_response_nanos;
  counts = add_counts t.counts s.instance_counts;
}

-- the loop of `Stats` over the entries
unfoldable pub total_from : Totals → String → Dict ServiceStats → Totals
total_from t name [] = t
total_from t name ((id, s) ∷ rest) =
    total_from (if str_eq s.service_name name then add_stats t s else t) name rest

-- `a / b` on `int64` with b > 0: the quotient is rounded towards 0.
abbrev pub quot : ℤ → ℕ → ℤ
quot (pos a) b = pos (a / b)
quot (negsuc a) b = sub_ℕ 0 (suc a / b)
