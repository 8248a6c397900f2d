-- ===== src/Gateway/Dashboard/Catalog/Summary.antt =====
-- What the summary of the metadata says of the instances.
use toska_mesh.Prelude.{
  String, ◌≡◌, refl, sym, ap, ◌∙◌, subst, ◌≢◌, ◌↔◌, ◌⊎◌, inl, inr, Bool, Option, none, some, List,
  [], ◌∷◌, arith, str_eq, eq_iff, if◌then◌else◌, Bool-cases, Option-cases, length, All, In,
}
use toska_mesh.Prelude.Dict.{
  Dict, lookup, insert, lookup-insert, HasDistinctKeys, insert-HasDistinctKeys,
}
use toska_mesh.Prelude.Order.{
  IsAscending, In-sort_by, length-sort_by, sort_by-IsAscending, DistinctBy, sort_by-DistinctBy,
}
use toska_mesh.Consul.{Instance}
use toska_mesh.Gateway.Dashboard.Catalog.{
  KeySummary, ValueSet, KeyMap, values_at, add_pair, add_metadata, collect, keys_of, key_summary,
  summaries, key_summaries,
}

-- The metadata have this pair.
abbrev pub Shows : String → String → Dict String → Type 0
Shows k v [] = ⊥
Shows k v ((k', v') ∷ rest) = ((k' ≡ k) × (v' ≡ v)) ⊎ Shows k v rest

-- Some instance has this pair in its metadata.
abbrev pub HasPair : String → String → List Instance → Type 0
HasPair k v [] = ⊥
HasPair k v (inst ∷ rest) = Shows k v inst.metadata ⊎ HasPair k v rest

-- the value is recorded for the key
abbrev Recorded : String → String → KeyMap → Type 0
Recorded k v m = lookup v (values_at k m) ≡ some tt

Recorded-add_pair :
    (k v k' v' : String) (m : KeyMap)
    → Recorded k v (add_pair k' v' m) ↔ (((k' ≡ k) × (v' ≡ v)) ⊎ Recorded k v m)
unfolding values_at
Recorded-add_pair k v k' v' m = ground (
  arith,
  lookup-insert k' k (insert v' tt (values_at k' m)) m,
  lookup-insert v' v tt (values_at k' m),
  eq_iff k' k,
  eq_iff v' v,
)

Recorded-add_metadata :
    (k v : String) (metadata : Dict String) (m : KeyMap)
    → Recorded k v (add_metadata metadata m) ↔ (Shows k v metadata ⊎ Recorded k v m)
unfolding add_metadata
Recorded-add_metadata k v [] m = ground arith
Recorded-add_metadata k v ((k', v') ∷ rest) m =
    ground (arith, Recorded-add_metadata k v rest (add_pair k' v' m), Recorded-add_pair k v k' v' m)

Recorded-collect :
    (k v : String) (instances : List Instance) (m : KeyMap)
    → Recorded k v (collect instances m) ↔ (HasPair k v instances ⊎ Recorded k v m)
unfolding collect
Recorded-collect k v [] m = ground arith
Recorded-collect k v (inst ∷ rest) m = ground (
  arith,
  Recorded-collect k v rest (add_metadata inst.metadata m),
  Recorded-add_metadata k v inst.metadata m,
)

add_metadata-HasDistinctKeys :
    (metadata : Dict String) (m : KeyMap)
    → HasDistinctKeys m
    → HasDistinctKeys (add_metadata metadata m)
unfolding add_metadata
add_metadata-HasDistinctKeys [] m h = h
add_metadata-HasDistinctKeys ((k, v) ∷ rest) m h =
    add_metadata-HasDistinctKeys rest (add_pair k v m) (insert-HasDistinctKeys k _ m h)

collect-HasDistinctKeys :
    (instances : List Instance) (m : KeyMap)
    → HasDistinctKeys m
    → HasDistinctKeys (collect instances m)
unfolding collect
collect-HasDistinctKeys [] m h = h
collect-HasDistinctKeys (inst ∷ rest) m h =
    collect-HasDistinctKeys rest _ (add_metadata-HasDistinctKeys inst.metadata m h)

In-keys_of : (v : String) (vals : ValueSet) → In v (keys_of vals) ↔ (lookup v vals ≡ some tt)
unfolding lookup
In-keys_of v [] = ground arith
In-keys_of v ((k, u) ∷ vals) = ground (arith, In-keys_of v vals, eq_iff k v)

length-keys_of : (vals : ValueSet) → length (keys_of vals) ≡ length vals
length-keys_of [] = refl
length-keys_of ((k, u) ∷ vals) = ground (arith, length-keys_of vals)

lookup_later :
    (k k' : String) (vals vals' : ValueSet) (m : KeyMap)
    → lookup k m ≡ none
    → lookup k' m ≡ some vals'
    → lookup k' ((k, vals) ∷ m) ≡ some vals'
unfolding lookup
lookup_later k k' vals vals' m d found = elim (Bool-cases (str_eq k k')) [
  | inl e ↦
      let same : lookup k m ≡ lookup k' m = ap (λ j. lookup j m) ((eq_iff k k').0 e) in
      let bad : none ≡ some vals' = sym d ∙ same ∙ found in cc
  | inr e ↦ rw (e, lookup) found
]

-- An entry of the map is found under its key.
In-summaries :
    (s : KeySummary) (m : KeyMap)
    → HasDistinctKeys m
    → In s (summaries m)
    → (k : String) × (vals : ValueSet) × (lookup k m ≡ some vals) × (s ≡ key_summary (k, vals))
In-summaries s [] d h = absurd h
In-summaries s ((k, vals) ∷ m) d (inl e) = (k, vals, unfold lookup in ground (arith, eq_iff k k), e)
In-summaries s ((k, vals) ∷ m) d (inr h) =
    let (k', vals', found, same) = In-summaries s m d.1 h in
    (k', vals', lookup_later k k' vals vals' m d.0 found, same)

summaries-In :
    (k : String) (vals : ValueSet) (m : KeyMap)
    → lookup k m ≡ some vals
    → In (key_summary (k, vals)) (summaries m)
unfolding lookup
summaries-In k vals [] h = cc
summaries-In k vals ((j, u) ∷ m) h = elim (Bool-cases (str_eq j k)) [
  | inl e ↦ let same : some u ≡ some vals = rw (e, lookup) at h in inl (cc ((eq_iff j k).0 e))
  | inr e ↦ inr (summaries-In k vals m (rw (e, lookup) at h))
]

Recorded-none : (k v : String) → Recorded k v [] → ⊥
unfolding values_at lookup
Recorded-none k v h = cc

Recorded-found :
    (k v : String) (vals : ValueSet) (m : KeyMap)
    → lookup k m ≡ some vals
    → Recorded k v m ↔ (lookup v vals ≡ some tt)
unfolding values_at
Recorded-found k v vals m found = ground (arith, found)

-- A recorded pair is in a summary of the map.
Recorded-summary :
    (k v : String) (m : KeyMap)
    → Recorded k v m
    → (s : KeySummary) × In s (summaries m) × (s.key ≡ k) × In v s.values
unfolding key_summary
Recorded-summary k v m h = elim (Option-cases (lookup k m)) [
  | inl n ↦ elim (Recorded-none k v (unfold values_at lookup in ground (arith, n, h))) [ ]
  | inr (vals, found) ↦ (
    key_summary (k, vals),
    summaries-In k vals m found,
    refl,
    (In-sort_by (λ v. v) v (keys_of vals)).1
        ((In-keys_of v vals).1 ((Recorded-found k v vals m found).0 h)),
  )
]

-- A value is recorded once for a key.
abbrev HasDistinctValues : KeyMap → Type 0
HasDistinctValues m = (k : String) → HasDistinctKeys (values_at k m)

values_at-add_pair :
    (k v k' : String) (m : KeyMap)
    → values_at k' (add_pair k v m)
      ≡ (if str_eq k k' then insert v tt (values_at k m) else values_at k' m)
unfolding values_at
values_at-add_pair k v k' m = ground (arith, lookup-insert k k' (insert v tt (values_at k m)) m)

add_pair-HasDistinctValues :
    (k v : String) (m : KeyMap) → HasDistinctValues m → HasDistinctValues (add_pair k v m)
add_pair-HasDistinctValues k v m h k' =
    let added = insert v tt (values_at k m) in
    let choice : Bool → ValueSet = λ t. if t then added else values_at k' m in
    let after = values_at-add_pair k v k' m in
    elim (Bool-cases (str_eq k k')) [
      | inl e ↦
          subst HasDistinctKeys (sym (after ∙ ap choice e))
            (insert-HasDistinctKeys v tt (values_at k m) (h k))
      | inr e ↦ subst HasDistinctKeys (sym (after ∙ ap choice e)) (h k')
    ]

add_metadata-HasDistinctValues :
    (metadata : Dict String) (m : KeyMap)
    → HasDistinctValues m
    → HasDistinctValues (add_metadata metadata m)
unfolding add_metadata
add_metadata-HasDistinctValues [] m h = h
add_metadata-HasDistinctValues ((k, v) ∷ rest) m h =
    add_metadata-HasDistinctValues rest (add_pair k v m) (add_pair-HasDistinctValues k v m h)

collect-HasDistinctValues :
    (instances : List Instance) (m : KeyMap)
    → HasDistinctValues m
    → HasDistinctValues (collect instances m)
unfolding collect
collect-HasDistinctValues [] m h = h
collect-HasDistinctValues (inst ∷ rest) m h =
    collect-HasDistinctValues rest _ (add_metadata-HasDistinctValues inst.metadata m h)

found-HasDistinctKeys :
    (instances : List Instance) (k : String) (vals : ValueSet)
    → lookup k (collect instances []) ≡ some vals
    → HasDistinctKeys vals
unfolding values_at
found-HasDistinctKeys instances k vals found =
    let empty : HasDistinctValues [] = λ j. unfold lookup in tt in
    subst HasDistinctKeys (ap (λ (o : Option ValueSet). elim o [ none ↦ [] | some vs ↦ vs ]) found)
      (collect-HasDistinctValues instances [] empty k)

keys_of-absent :
    (k : String) (vals : ValueSet) → lookup k vals ≡ none → All (λ j. j ≢ k) (keys_of vals)
unfolding lookup
keys_of-absent k [] h = tt
keys_of-absent k ((j, u) ∷ vals) h = ground (arith, keys_of-absent k vals, eq_iff j k)

keys_of-DistinctBy :
    (vals : ValueSet) → HasDistinctKeys vals → DistinctBy (λ (v : String). v) (keys_of vals)
keys_of-DistinctBy [] h = tt
keys_of-DistinctBy ((k, u) ∷ vals) h = (keys_of-absent k vals h.0, keys_of-DistinctBy vals h.1)

summaries-absent :
    (k : String) (m : KeyMap) → lookup k m ≡ none → All (λ s. s.key ≢ k) (summaries m)
unfolding lookup key_summary
summaries-absent k [] h = tt
summaries-absent k ((j, vals) ∷ m) h = ground (arith, summaries-absent k m, eq_iff j k)

summaries-DistinctBy :
    (m : KeyMap) → HasDistinctKeys m → DistinctBy (λ (s : KeySummary). s.key) (summaries m)
unfolding key_summary
summaries-DistinctBy [] h = tt
summaries-DistinctBy ((k, vals) ∷ m) h = (summaries-absent k m h.0, summaries-DistinctBy m h.1)

-- what a key summary must be for some instances
abbrev IsGood : List Instance → KeySummary → Type 0
IsGood instances s =
    ((v : String) → In v s.values → HasPair s.key v instances)
    × (s.instance_count ≡ length s.values)
    × DistinctBy (λ (v : String). v) s.values
    × IsAscending (λ (v : String). v) s.values

IsGood-key_summary :
    (instances : List Instance) (k : String) (vals : ValueSet)
    → lookup k (collect instances []) ≡ some vals
    → IsGood instances (key_summary (k, vals))
unfolding key_summary
IsGood-key_summary instances k vals found = (
  λ v h.
      elim ((Recorded-collect k v instances []).0 (
        (Recorded-found k v vals _ found).1
          ((In-keys_of v vals).0 ((In-sort_by (λ v. v) v (keys_of vals)).0 h)))) [
            | inl p ↦ p
            | inr bad ↦ elim (Recorded-none k v bad) [ ]
          ],
  ground (arith, length-sort_by (λ (v : String). v) (keys_of vals), length-keys_of vals),
  sort_by-DistinctBy (λ v. v) (keys_of vals)
      (keys_of-DistinctBy vals (found-HasDistinctKeys instances k vals found)),
  sort_by-IsAscending (λ v. v) (keys_of vals),
)

-- What the list of key summaries must be for some instances.
pub record IsSummary (instances : List Instance) (keys : List KeySummary) : Type 0 where
  pub sound : (s : KeySummary) (v : String) → In s keys → In v s.values → HasPair s.key v instances
  pub complete :
      (k v : String)
      → HasPair k v instances
      → (s : KeySummary) × In s keys × (s.key ≡ k) × In v s.values
  pub counted : (s : KeySummary) → In s keys → s.instance_count ≡ length s.values
  pub distinct_values : (s : KeySummary) → In s keys → DistinctBy (λ (v : String). v) s.values
  pub ordered_values : (s : KeySummary) → In s keys → IsAscending (λ (v : String). v) s.values
  pub distinct_keys : DistinctBy (λ (s : KeySummary). s.key) keys
  pub ordered_keys : IsAscending (λ (s : KeySummary). s.key) keys

-- The key summaries of some instances are in the order of the keys, and no two have the same key. Each
-- lists, in order and each once, the values that the instances have for its key and no others, and no
-- pair of key and value of an instance is missing; its instance count is the number of these different
-- values (not of the instances that have the key).
pub key_summaries-IsSummary :
    (instances : List Instance) → IsSummary instances (key_summaries instances)
unfolding key_summaries
key_summaries-IsSummary instances = record {
  sound = λ s v h. (good s h).0 v;
  complete = λ k v h.
      let m = collect instances [] in
      let (s, m_in, key, value) =
        Recorded-summary k v m ((Recorded-collect k v instances []).1 (inl h)) in
      (s, (In-sort_by (λ (s : KeySummary). s.key) s (summaries m)).1 m_in, key, value);
  counted = λ s h. (good s h).1;
  distinct_values = λ s h. (good s h).2;
  ordered_values = λ s h. (good s h).3;
  distinct_keys =
      sort_by-DistinctBy (λ s. s.key) _
        (summaries-DistinctBy _ (collect-HasDistinctKeys instances [] tt));
  ordered_keys = sort_by-IsAscending (λ s. s.key) _;
}
  where
    good : (s : KeySummary) → In s (key_summaries instances) → IsGood instances s
    good s h =
        let m = collect instances [] in
        let listed = (In-sort_by (λ (s : KeySummary). s.key) s (summaries m)).0 h in
        let (k, vals, found, same) =
          In-summaries s m (collect-HasDistinctKeys instances [] tt) listed in
        subst (IsGood instances) (sym same) (IsGood-key_summary instances k vals found)
