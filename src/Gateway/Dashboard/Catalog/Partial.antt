-- ===== src/Gateway/Dashboard/Catalog/Partial.antt =====
-- The catalog when Consul answers only in part.
use toska_mesh.Prelude.{
  ℕ, String, ◌≡◌, refl, sym, ap, ◌∙◌, ◌↔◌, inl, inr, true, List, [], ◌∷◌, arith, All, In, All-In,
}
use toska_mesh.Prelude.Result.{Result, ok, err}
use toska_mesh.Consul.{Instance, Agent, Registry, get_instances, get_services}
use toska_mesh.Gateway.Dashboard.Catalog.{CatalogItem, catalog_item, catalog_items, handle_services}
use toska_mesh.Prelude.Order.{
  leb_text, sort_by, IsAscending, In-sort_by, sort_by-IsAscending, above_first, IsAscending-rest,
  IsAscending-first,
}

-- The item of a service whose instances can be listed.
abbrev pub IsItemOf :
    (a : Agent) → (ℕ → String) → String → Registry → a.State → List String → CatalogItem → Type 0
IsItemOf a format_time now registry w names item =
    (name : String) × (instances : List Instance) × In name names
    × ((get_instances a registry name w).0 ≡ ok instances)
    × (item ≡ catalog_item format_time now name instances)

-- Reading does not change the agent.
abbrev pub IsReadOnly : (a : Agent) → Registry → a.State → Type 0
IsReadOnly a registry w =
    ((get_services a w).1 ≡ w) × ((name : String) → (get_instances a registry name w).1 ≡ w)

In-All : {A : Type 0} (P : A → Type 0) (xs : List A) → ((x : A) → In x xs → P x) → All P xs
In-All P [] h = tt
In-All P (x ∷ xs) h = (h x (inl refl), In-All P xs (λ y i. h y (inr i)))

module _ (a : Agent) (format_time : ℕ → String) (now : String) (registry : Registry)
    (w : a.State) where
  -- one service in front of the others
  abbrev item_first : String → Result (List Instance) → List CatalogItem → List CatalogItem
  item_first name (err e) items = items
  item_first name (ok instances) items = catalog_item format_time now name instances ∷ items

  abbrev items_of : List String → List CatalogItem
  items_of names = (catalog_items a format_time now registry names w).0

  abbrev with_answer :
      String → Result (List Instance) → List CatalogItem × a.State → List CatalogItem × a.State
  with_answer name answer (items, v) = elim answer [
    | err e ↦ (items, v)
    | ok instances ↦ (catalog_item format_time now name instances ∷ items, v)
  ]

  first_answer :
      (name : String) (answer : Result (List Instance)) (later : List CatalogItem × a.State)
      → (with_answer name answer later).0 ≡ item_first name answer later.0
  first_answer name (err e) later = refl
  first_answer name (ok instances) later = refl

  items_of-first :
      (name : String) (rest : List String)
      → ((n : String) → (get_instances a registry n w).1 ≡ w)
      → items_of (name ∷ rest) ≡ item_first name (get_instances a registry name w).0 (items_of rest)
  unfolding catalog_items
  items_of-first name rest r =
      first_answer name (get_instances a registry name w).0 _
      ∙ ap
          (λ v.
            item_first name (get_instances a registry name w).0
              (catalog_items a format_time now registry rest v).0)
          (r name)

  In-item_first :
      (name : String) (rest : List String) (item : CatalogItem) (answer : Result (List Instance))
      → (get_instances a registry name w).0 ≡ answer
      → In item (items_of rest) ↔ IsItemOf a format_time now registry w rest item
      → In item (item_first name answer (items_of rest))
        ↔ IsItemOf a format_time now registry w (name ∷ rest) item
  In-item_first name rest item (err e) g h = (
    λ i. let (n, l, p, q, s) = h.0 i in (n, l, inr p, q, s),
    λ (n, l, p, q, s). elim p [
      | inl same ↦
          let bad : err e ≡ ok l =
            sym g ∙ ap (λ x. (get_instances a registry x w).0) (sym same) ∙ q in
          absurd (ground arith)
      | inr later ↦ h.1 (n, l, later, q, s)
    ],
  )
  In-item_first name rest item (ok l) g h = (
    λ i. elim i [
      | inl same ↦ (name, l, inl refl, g, same)
      | inr later ↦ let (n, k, p, q, s) = h.0 later in (n, k, inr p, q, s)
    ],
    λ (n, k, p, q, s). elim p [
      | inl same ↦
          let both : ok k ≡ ok l = sym q ∙ ap (λ x. (get_instances a registry x w).0) same ∙ g in
          let instances : k ≡ l = ground arith in
          inl (
            s
            ∙ ap (λ x. catalog_item format_time now x k) same
            ∙ ap (catalog_item format_time now name) instances)
      | inr later ↦ inr (h.1 (n, k, later, q, s))
    ],
  )

  In-items_of :
      (names : List String) (item : CatalogItem)
      → ((n : String) → (get_instances a registry n w).1 ≡ w)
      → In item (items_of names) ↔ IsItemOf a format_time now registry w names item
  unfolding catalog_items
  In-items_of [] item r = (λ h. absurd h, λ (name, instances, i, g, e). absurd i)
  In-items_of (name ∷ rest) item r = rw (items_of-first name rest r) (
      In-item_first name rest item (get_instances a registry name w).0 refl
        (In-items_of rest item r))

  -- The names of the items are those of some services.
  items_of-named :
      (name : String) (rest : List String)
      → ((n : String) → (get_instances a registry n w).1 ≡ w)
      → IsAscending (λ n. n) (name ∷ rest)
      → All (λ (item : CatalogItem). leb_text name item.service_name ≡ true) (items_of rest)
  unfolding catalog_item
  items_of-named name rest r h = In-All _ (items_of rest) (λ item i.
      let (n, l, p, q, s) = (In-items_of rest item r).0 i in
      rw s (All-In _ n rest (above_first (λ n. n) name rest h) p))

  item_first-IsAscending :
      (name : String) (answer : Result (List Instance)) (items : List CatalogItem)
      → All (λ (item : CatalogItem). leb_text name item.service_name ≡ true) items
      → IsAscending (λ (item : CatalogItem). item.service_name) items
      → IsAscending (λ (item : CatalogItem). item.service_name) (item_first name answer items)
  unfolding catalog_item
  item_first-IsAscending name (err e) items b h = h
  item_first-IsAscending name (ok l) items b h =
      IsAscending-first (λ (item : CatalogItem). item.service_name)
        (catalog_item format_time now name l) items b h

  items_of-IsAscending :
      (names : List String)
      → ((n : String) → (get_instances a registry n w).1 ≡ w)
      → IsAscending (λ n. n) names
      → IsAscending (λ (item : CatalogItem). item.service_name) (items_of names)
  items_of-IsAscending [] r h = unfold catalog_items in tt
  items_of-IsAscending (name ∷ rest) r h =
      let later = items_of-IsAscending rest r (IsAscending-rest (λ n. n) name rest h) in
      rw (items_of-first name rest r)
        (item_first-IsAscending name _ (items_of rest) (items_of-named name rest r h) later)

module _ (a : Agent) (format_time : ℕ → String) (registry : Registry) (w : a.State) where
  -- Where Consul lists the services, the catalog is answered, also if listing the instances of some
  -- services fails: it has an item for each service whose instances could be listed, and no other,
  -- in the order of the names. (Reading must not change what Consul answers.)
  pub handle_services-partial :
      (now : ℕ) (names : List String)
      → IsReadOnly a registry w
      → (get_services a w).0 ≡ ok names
      → (items : List CatalogItem) × ((handle_services a format_time now registry w).0 ≡ ok items)
        × IsAscending (λ (item : CatalogItem). item.service_name) items
        × ((item : CatalogItem)
            → In item items ↔ IsItemOf a format_time (format_time now) registry w names item)
  unfolding handle_services
  handle_services-partial now names (s, r) g =
      let sorted = sort_by (λ n. n) names in
      let found = In-items_of a format_time (format_time now) registry w sorted in
      (
        items_of a format_time (format_time now) registry w sorted,
        rw (g, s, handle_services) refl,
        items_of-IsAscending a format_time (format_time now) registry w sorted r
            (sort_by-IsAscending (λ n. n) names),
        λ item. (
          λ i.
              let (n, l, p, q, e) = (found item r).0 i in
              (n, l, (In-sort_by (λ n. n) n names).0 p, q, e),
          λ (n, l, p, q, e). (found item r).1 (n, l, (In-sort_by (λ n. n) n names).1 p, q, e),
        ),
      )
