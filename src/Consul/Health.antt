-- ===== src/Consul/Health.antt =====
-- `mapHealthStatus`: what the checks of an instance say of its health.
use mathlib.Core.Bool.{false≢true}
use toska_mesh.Prelude.{
  String, ◌≡◌, refl, sym, ap, ◌∙◌, ◌≢◌, ◌⊎◌, inl, inr, Bool, true, false, ◌||◌, List, [], ◌∷◌,
  arith, str_eq, eq_iff, if◌then◌else◌, null, All, In, any, all,
}
use toska_mesh.Types.{HealthStatus, unknown, healthy, unhealthy, degraded}
use toska_mesh.Consul.{map_health_status}

-- A check has the given status.
abbrev pub Has : String → List String → Type 0
Has status checks = In status checks

-- What Consul reports for an instance, in terms of its checks.
abbrev pub Reports : List String → HealthStatus → Type 0
Reports checks unhealthy = Has "critical" checks ⊎ Has "maintenance" checks
Reports checks degraded =
    ¬ Has "critical" checks × ¬ Has "maintenance" checks × Has "warning" checks
Reports checks healthy = (checks ≢ []) × All (λ c. c ≡ "passing") checks
Reports checks unknown =
    ¬ Has "critical" checks
    × ¬ Has "maintenance" checks
    × ¬ Has "warning" checks
    × ((checks ≡ []) ⊎ ¬ All (λ c. c ≡ "passing") checks)

any-In : (s : String) (xs : List String) → any (λ c. str_eq c s) xs ≡ true → In s xs
any-In s [] h = cc
any-In s (x ∷ xs) h = ground (arith, eq_iff x s, any-In s xs)

In-any : (s : String) (xs : List String) → In s xs → any (λ c. str_eq c s) xs ≡ true
In-any s [] h = absurd h
In-any s (x ∷ xs) h = ground (arith, eq_iff x s, In-any s xs)

any-or :
    (s t : String) (xs : List String)
    → any (λ c. str_eq c s || str_eq c t) xs
      ≡ (any (λ c. str_eq c s) xs || any (λ c. str_eq c t) xs)
any-or s t [] = refl
any-or s t (x ∷ xs) = ground (arith, any-or s t xs)

all-All : (s : String) (xs : List String) → all (λ c. str_eq c s) xs ≡ true → All (λ c. c ≡ s) xs
all-All s [] h = tt
all-All s (x ∷ xs) h = ground (arith, eq_iff x s, all-All s xs)

All-all : (s : String) (xs : List String) → All (λ c. c ≡ s) xs → all (λ c. str_eq c s) xs ≡ true
All-all s [] h = refl
All-all s (x ∷ xs) h = ground (arith, eq_iff x s, All-all s xs)

-- `map_health_status` as tests that a proof can split on
statuses : Bool → Bool → Bool → Bool → Bool → HealthStatus
statuses none_given critical maintenance warning passing =
    if none_given
    then unknown
    else if critical || maintenance
    then unhealthy
    else if warning
    then degraded
    else if passing
    then healthy
    else unknown

map_health_status-statuses :
    (cs : List String)
    → map_health_status cs
      ≡ statuses
          (null cs)
          (any (λ c. str_eq c "critical") cs)
          (any (λ c. str_eq c "maintenance") cs)
          (any (λ c. str_eq c "warning") cs)
          (all (λ c. str_eq c "passing") cs)
unfolding map_health_status statuses
map_health_status-statuses cs = ground (arith, any-or "critical" "maintenance" cs)

unhealthy-tests : (n c m w p : Bool) → statuses n c m w p ≡ unhealthy → (c ≡ true) ⊎ (m ≡ true)
unfolding statuses
unhealthy-tests n c m w p h = ground arith

degraded-tests :
    (n c m w p : Bool) → statuses n c m w p ≡ degraded → (c ≢ true) × (m ≢ true) × (w ≡ true)
unfolding statuses
degraded-tests n c m w p h = ground arith

healthy-tests : (n c m w p : Bool) → statuses n c m w p ≡ healthy → (n ≡ false) × (p ≡ true)
unfolding statuses
healthy-tests n c m w p h = ground arith

unknown-tests :
    (c m w p : Bool)
    → statuses false c m w p ≡ unknown
    → (c ≢ true) × (m ≢ true) × (w ≢ true) × (p ≢ true)
unfolding statuses
unknown-tests c m w p h = ground arith

absent : (s : String) (cs : List String) → any (λ c. str_eq c s) cs ≢ true → ¬ In s cs
absent s cs n i = n (In-any s cs i)

reported : (cs : List String) (h : HealthStatus) → map_health_status cs ≡ h → Reports cs h
reported cs unhealthy e =
    elim (unhealthy-tests _ _ _ _ _ (sym (map_health_status-statuses cs) ∙ e)) [
      | inl t ↦ inl (any-In "critical" cs t)
      | inr t ↦ inr (any-In "maintenance" cs t)
    ]
reported cs degraded e =
    let t = degraded-tests _ _ _ _ _ (sym (map_health_status-statuses cs) ∙ e) in
    (absent "critical" cs t.0, absent "maintenance" cs t.1, any-In "warning" cs t.2)
reported cs healthy e =
    let t = healthy-tests _ _ _ _ _ (sym (map_health_status-statuses cs) ∙ e) in
    ((λ n. false≢true (sym t.0 ∙ ap null n)), all-All "passing" cs t.1)
reported [] unknown e = (λ h. h, λ h. h, λ h. h, inl refl)
reported (c ∷ cs) unknown e =
    let t = unknown-tests _ _ _ _ (sym (map_health_status-statuses (c ∷ cs)) ∙ e) in
    (
      absent "critical" (c ∷ cs) t.0,
      absent "maintenance" (c ∷ cs) t.1,
      absent "warning" (c ∷ cs) t.2,
      inr (λ a. t.3 (All-all "passing" (c ∷ cs) a)),
    )

-- The status that `mapHealthStatus` gives is the one that the checks report: unhealthy exactly with a
-- critical or maintenance check, else degraded with a warning, else healthy if there is a check and
-- all pass, and unknown otherwise.
pub map_health_status-Reports : (cs : List String) → Reports cs (map_health_status cs)
map_health_status-Reports cs = reported cs (map_health_status cs) refl
