-- ===== src/Discovery/Address.antt =====
-- The address that an instance is registered with.
use toska_mesh.Prelude.Net.{Net}
use toska_mesh.Prelude.{
  String, ◌≡◌, sym, ap, ◌∙◌, ◌≢◌, ◌⊎◌, inl, inr, true, false, Option, none, some, arith, str_eq,
  eq_iff, if◌then◌else◌, Bool-cases, Option-cases,
}
use toska_mesh.Discovery.Messages.{is_routable, caller_host, resolve_address}

-- the addresses that `resolveAddress` may choose from
abbrev pub Resolved : Net → Option String → String → String → Type 0
Resolved net caller requested address =
    ((is_routable net requested ≡ true) × (address ≡ requested))
    ⊎ ((is_routable net requested ≡ false)
        × (is_routable net address ≡ true)
        × (caller_host net caller ≡ some address))
    ⊎ ((is_routable net requested ≡ false)
        × (caller_host net caller ≡ none)
        × (address ≡ (if str_eq requested "" then "127.0.0.1" else requested)))

caller_host-routable :
    (net : Net) (caller : Option String) (host : String)
    → caller_host net caller ≡ some host
    → is_routable net host ≡ true
unfolding caller_host
caller_host-routable net none host h = cc
caller_host-routable net (some addr) host h = ground arith

-- A routable address is kept. Else the host of the caller is taken if it has one that is routable,
-- and only if it has none the requested address, or the loopback address for an empty one.
pub resolve_address-Resolved :
    (net : Net) (caller : Option String) (requested : String)
    → Resolved net caller requested (resolve_address net caller requested)
unfolding resolve_address
resolve_address-Resolved net caller requested = elim (Bool-cases (is_routable net requested)) [
  | inl e ↦ inl (e, rw (e, resolve_address))
  | inr e ↦ elim (Option-cases (caller_host net caller)) [
    | inl n ↦ inr (inr (e, n, rw (e, n, resolve_address)))
    | inr (host, p) ↦
        let chosen : resolve_address net caller requested ≡ host = rw (e, p, resolve_address) in
        inr (
          inl (
            e,
            ap (is_routable net) chosen ∙ caller_host-routable net caller host p,
            p ∙ ap some (sym chosen),
          ))
  ]
]

routable-ne-empty : (net : Net) (addr : String) → is_routable net addr ≡ true → addr ≢ ""
unfolding is_routable
routable-ne-empty net addr h e = ground (arith, eq_iff addr "")

fallback-ne-empty :
    (requested : String) → (if str_eq requested "" then "127.0.0.1" else requested) ≢ ""
fallback-ne-empty requested h = ground (arith, eq_iff requested "", eq_iff "127.0.0.1" "")

-- The address is never empty.
pub resolve_address-ne-empty :
    (net : Net) (caller : Option String) (requested : String)
    → resolve_address net caller requested ≢ ""
resolve_address-ne-empty net caller requested h =
    elim (resolve_address-Resolved net caller requested) [
      | inl (r, e) ↦ routable-ne-empty net requested r (sym e ∙ h)
      | inr (inl (_, r, _)) ↦ routable-ne-empty net _ r h
      | inr (inr (_, _, e)) ↦ fallback-ne-empty requested (sym e ∙ h)
    ]
