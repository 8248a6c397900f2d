-- ===== src/Gateway/Dashboard/Catalog.antt =====
-- internal/gateway/dashboard.go: the service catalog. The text of an instant in the format RFC 3339 is an
-- argument; the catalog itself stands for its JSON text.
pub mod Summary
pub mod Partial
use toska_mesh.Prelude.{
  ℕ, String, Option, none, some, List, [], ◌∷◌, map, ◌==◌, if◌then◌else◌, length, null,
}
use toska_mesh.Prelude.Int.{ℤ}
use toska_mesh.Prelude.Dict.{Dict, lookup, insert}
use toska_mesh.Prelude.Order.{sort_by}
use toska_mesh.Prelude.Result.{Result, ok, err}
use toska_mesh.Types.{to_string}
use toska_mesh.Consul.{Instance, Agent, Registry, get_instances, get_services}

-- `serviceInstance`
pub record ItemInstance : Type 0 where
  pub service_name : String
  pub service_id : String
  pub address : String
  pub port : ℤ
  pub status : String
  pub metadata : Dict String
  pub registered_at : String
  pub last_health_check : String

-- `metadataKeySummary`
pub record KeySummary : Type 0 where
  pub key : String
  pub instance_count : ℕ
  pub values : List String

-- `serviceMetadataSummary`
pub record MetadataSummary : Type 0 where
  pub service_name : String
  pub instance_count : ℕ
  pub generated_at : String
  pub keys : List KeySummary

-- `serviceCatalogItem`; its `Health` is always empty
pub record CatalogItem : Type 0 where
  pub service_name : String
  pub instances : List ItemInstance
  pub metadata : Option MetadataSummary

-- the text of an instant, empty for the zero time
abbrev pub date_text : (ℕ → String) → ℕ → String
date_text format_time t = if t == 0 then "" else format_time t

-- one round of the loop over the instances
unfoldable pub item_of : (ℕ → String) → Instance → ItemInstance
item_of format_time inst = record {
  service_name = inst.service_name;
  service_id = inst.service_id;
  address = inst.address;
  port = inst.port;
  status = to_string inst.status;
  metadata = inst.metadata;
  registered_at = date_text format_time inst.registered_at;
  last_health_check = date_text format_time inst.last_health_check;
}

-- `map[string]struct{}`
abbrev pub ValueSet : Type 0
ValueSet = Dict (Unit {0})

-- `map[string]map[string]struct{}`
abbrev pub KeyMap : Type 0
KeyMap = Dict ValueSet

-- `keyMap[k]`, empty where it is nil
unfoldable pub values_at : String → KeyMap → ValueSet
values_at k m = elim (lookup k m) [ none ↦ [] | some vs ↦ vs ]

-- `keyMap[k][v] = struct{}{}`
abbrev pub add_pair : String → String → KeyMap → KeyMap
add_pair k v m = insert k (insert v tt (values_at k m)) m

-- the loop over the metadata of one instance
unfoldable pub add_metadata : Dict String → KeyMap → KeyMap
add_metadata [] m = m
add_metadata ((k, v) ∷ rest) m = add_metadata rest (add_pair k v m)

-- the loop over the instances
unfoldable pub collect : List Instance → KeyMap → KeyMap
collect [] m = m
collect (inst ∷ rest) m = collect rest (add_metadata inst.metadata m)

abbrev pub keys_of {ℓ} : {V : Type ℓ} → Dict V → List String
keys_of [] = []
keys_of ((k, v) ∷ m) = k ∷ keys_of m

-- one round of the loop over `keyMap`
unfoldable pub key_summary : String × ValueSet → KeySummary
key_summary (k, vals) = record {
  key = k;
  instance_count = length vals;
  values = sort_by (λ v. v) (keys_of vals);
}

abbrev pub summaries : KeyMap → List KeySummary
summaries [] = []
summaries (entry ∷ m) = key_summary entry ∷ summaries m

-- the keys of the summary of some instances
unfoldable pub key_summaries : List Instance → List KeySummary
key_summaries instances = sort_by (λ (s : KeySummary). s.key) (summaries (collect instances []))

-- `meta`, nil for no instances
unfoldable pub metadata_of : String → String → List Instance → Option MetadataSummary
metadata_of name now instances =
    if null instances
    then none
    else some (record {
      service_name = name;
      instance_count = length instances;
      generated_at = now;
      keys = key_summaries instances;
    })

-- the item of a service
unfoldable pub catalog_item : (ℕ → String) → String → String → List Instance → CatalogItem
catalog_item format_time now name instances = record {
  service_name = name;
  instances = map (item_of format_time) instances;
  metadata = metadata_of name now instances;
}

-- The registry's agent.
module _ (a : Agent) where
  -- the loop over the services; one whose instances cannot be listed is left out
  unfoldable pub catalog_items :
      (ℕ → String) → String → Registry → List String → a.State → List CatalogItem × a.State
  catalog_items format_time now registry [] w = ([], w)
  catalog_items format_time now registry (name ∷ rest) w =
      let (answer, w') = get_instances a registry name w in
      let (items, w'') = catalog_items format_time now registry rest w' in
      elim answer [
        | err e ↦ (items, w'')
        | ok instances ↦ (catalog_item format_time now name instances ∷ items, w'')
      ]

  -- `handleServices`; an error is answered by 502
  unfoldable pub handle_services :
      (ℕ → String) → ℕ → Registry → a.State → Result (List CatalogItem) × a.State
  handle_services format_time now registry w =
      let (answer, w') = get_services a w in
      elim answer [
        | err e ↦ (err "failed to query consul", w')
        | ok names ↦
            let (items, w'') =
              catalog_items format_time (format_time now) registry (sort_by (λ n. n) names) w' in
            (ok items, w'')
      ]
