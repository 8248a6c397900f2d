-- ===== src/Consul/Catalog/Entries.antt =====
-- What an operation does to the entries that the agent lists.
use toska_mesh.Prelude.{
  ℕ, String, ◌≡◌, refl, inl, inr, false, not, List, [], ◌∷◌, map, arith, str_eq, eq_iff, eq_refl,
  Bool-cases, keep, All, In,
}
use toska_mesh.Prelude.Dict.{Dict, insert, delete}
use toska_mesh.Prelude.Result.{Result, ok, err}
use toska_mesh.Types.{healthy}
use toska_mesh.Consul.{
  Instance, Registration, ServiceEntry, Registry, check_id_of, agent_registration, time_of,
  instance_of,
}
use toska_mesh.Consul.Catalog.{Service, mark, entries, IsOwn, status-text_of}
use toska_mesh.Prelude.Text.{◌+ₛ◌}

pub insert-IsOwn :
    (id : String) (s : Service) (d : Dict Service)
    → IsOwn (id, s)
    → All IsOwn d
    → All IsOwn (insert id s d)
unfolding insert
insert-IsOwn id s [] o own = (o, tt)
insert-IsOwn id s ((key, t) ∷ d) o own = ground (arith, insert-IsOwn id s d o own.1)

pub delete-IsOwn : (id : String) (d : Dict Service) → All IsOwn d → All IsOwn (delete id d)
unfolding delete
delete-IsOwn id [] own = tt
delete-IsOwn id ((key, t) ∷ d) own = ground (arith, delete-IsOwn id d own.1)

pub mark-IsOwn :
    (check_id status : String) (d : Dict Service) → All IsOwn d → All IsOwn (mark check_id status d)
mark-IsOwn check_id status [] own = tt
mark-IsOwn check_id status ((key, t) ∷ d) own = ground (arith, mark-IsOwn check_id status d own.1)

-- The instance that a registration asks for, as it is read at once.
abbrev pub registered : Registration → ℕ → Instance
registered reg now = record {
  service_name = reg.service_name;
  service_id = reg.service_id;
  address = reg.address;
  port = reg.port;
  status = healthy;
  metadata = reg.metadata;
  registered_at = now;
  last_health_check = 0;
}

abbrev pub fresh_service : Registration → Service
fresh_service reg = record { registration = agent_registration reg; check = "critical" }

entries-later :
    (f : ServiceEntry → Instance) (node : List String) (name key : String) (s : Service)
    (d : Dict Service) (inst : Instance)
    → In inst (map f (entries node name d))
    → In inst (map f (entries node name ((key, s) ∷ d)))
entries-later f node name key s d inst h = elim (Bool-cases (str_eq s.registration.name name)) [
  | inl n ↦ rw n (inr h)
  | inr n ↦ rw n h
]

mark-later :
    (f : ServiceEntry → Instance) (node : List String) (name check_id status key : String)
    (s : Service) (d : Dict Service) (inst : Instance)
    → In inst (map f (entries node name (mark check_id status d)))
    → In inst (map f (entries node name (mark check_id status ((key, s) ∷ d))))
mark-later f node name check_id status key s d inst h =
    elim (Bool-cases (str_eq s.registration.check_id check_id)) [
      | inl n ↦ rw n (
          entries-later f node name key (record s { check = status }) (mark check_id status d) inst
            h)
      | inr n ↦ rw n (entries-later f node name key s (mark check_id status d) inst h)
    ]

In-first :
    (r : Registry) (reg : Registration) (node : List String) (d : Dict Service)
    → All (λ c. c ≡ "passing") node
    → In (registered reg (time_of r reg.service_id)) (
        map (instance_of r) (
          entries node reg.service_name (
            mark (check_id_of reg.service_id) "passing" ((reg.service_id, fresh_service reg) ∷ d))))
unfolding instance_of agent_registration
In-first r reg node d a =
    let named = eq_refl reg.service_name in
    let checked = eq_refl (check_id_of reg.service_id) in
    rw (checked, named, status-text_of healthy node a) (inl refl)

pub In-entries :
    (r : Registry) (reg : Registration) (node : List String) (d : Dict Service)
    → All (λ c. c ≡ "passing") node
    → In (registered reg (time_of r reg.service_id)) (
        map (instance_of r) (
          entries node reg.service_name (
            mark
              (check_id_of reg.service_id)
              "passing"
              (insert reg.service_id (fresh_service reg) d))))
unfolding insert
In-entries r reg node [] a = In-first r reg node [] a
In-entries r reg node ((key, s) ∷ d) a = elim (Bool-cases (str_eq key reg.service_id)) [
  | inl h ↦ rw (insert, h) (In-first r reg node d a)
  | inr h ↦
      rw (insert, h)
        (mark-later (instance_of r) node reg.service_name (check_id_of reg.service_id) "passing" key
          s (insert reg.service_id (fresh_service reg) d) _ (In-entries r reg node d a))
]

pub entries-delete :
    (r r' : Registry) (node : List String) (name id : String) (d : Dict Service)
    → ((key : String) → str_eq id key ≡ false → time_of r' key ≡ time_of r key)
    → All IsOwn d
    → map (instance_of r') (entries node name (delete id d))
      ≡ keep (λ inst. not (str_eq inst.service_id id)) (map (instance_of r) (entries node name d))
unfolding delete instance_of
entries-delete r r' node name id [] t own = refl
entries-delete r r' node name id ((key, s) ∷ d) t ((same, check), own) =
    let rest = entries-delete r r' node name id d t own in
    ground (
      arith,
      t s.registration.id,
      eq_iff key id,
      eq_iff id s.registration.id,
      eq_iff s.registration.id id,
    )

abbrev pub instances_of : Registry → Result (List ServiceEntry) → Result (List Instance)
instances_of r x = elim x [
  | err e ↦ err ("consul get instances: " +ₛ e)
  | ok es ↦ ok (map (instance_of r) es)
]

pub listed :
    (r : Registry) (x : Result (List ServiceEntry)) (answer : List Instance)
    → instances_of r x ≡ ok answer
    → (es : List ServiceEntry) × (x ≡ ok es) × (answer ≡ map (instance_of r) es)
listed r (err e) answer h = absurd (ground arith)
listed r (ok es) answer h = (es, refl, ground arith)
