-- ===== src/Scenarios/Denies.antt =====
-- What traffic the built policies let through (internal/netchaos/policy/builder.go), by the
-- documented meaning of a NetworkPolicy: a pod that it selects is isolated in the directions of
-- its policy types, and there only what some rule allows passes.
use flink_chaos_operator.Prelude.{
  ℤ, pos, String, ◌≡◌, refl, ◌↔◌, ◌⊎◌, Bool, true, false, not, ◌&&◌, ◌||◌, Option, none, some, List,
  [], ◌∷◌, arith, if◌then◌else◌, str_eq, eq_ℤ, subst, sym, str_eq_sound,
}
use flink_chaos_operator.Scenarios.Policy.{
  Spec, PolicyType, IpBlock, Rule, NetworkPolicy, build_ports, build,
}

-- The two directions differ.
egress_is_not_ingress : (d : String) → str_eq d "Egress" ≡ true → str_eq d "Ingress" ≡ false
egress_is_not_ingress d e =
    subst (λ d'. str_eq d' "Ingress" ≡ false) (sym (str_eq_sound d "Egress" e)) refl

egress_is_not_both : (d : String) → str_eq d "Egress" ≡ true → str_eq d "Both" ≡ false
egress_is_not_both d e =
    subst (λ d'. str_eq d' "Both" ≡ false) (sym (str_eq_sound d "Egress" e)) refl

-- Whether an address lies in a block.
module _ (in_block : String → String → Bool) where
  abbrev in_any : List String → String → Bool
  in_any [] addr = false
  in_any (b ∷ bs) addr = in_block b addr || in_any bs addr

  abbrev peer_allows : List IpBlock → String → Bool
  peer_allows [] addr = false
  peer_allows (b ∷ bs) addr =
      (in_block b.cidr addr && not (in_any b.except addr)) || peer_allows bs addr

  abbrev port_in : List ℤ → ℤ → Bool
  port_in [] port = false
  port_in (p ∷ ps) port = eq_ℤ p port || port_in ps port

  abbrev port_allows : Option (List ℤ) → ℤ → Bool
  port_allows none port = true
  port_allows (some ps) port = port_in ps port

  abbrev rules_allow : List Rule → String → ℤ → Bool
  rules_allow [] addr port = false
  rules_allow (r ∷ rs) addr port =
      (port_allows r.ports port && peer_allows r.to addr) || rules_allow rs addr port

  abbrev has_egress : List PolicyType → Bool
  has_egress [] = false
  has_egress (PolicyType.egress ∷ ts) = true
  has_egress (PolicyType.ingress ∷ ts) = has_egress ts

  abbrev has_ingress : List PolicyType → Bool
  has_ingress [] = false
  has_ingress (PolicyType.ingress ∷ ts) = true
  has_ingress (PolicyType.egress ∷ ts) = has_ingress ts

  abbrev allowed_by : Option (List Rule) → String → ℤ → Bool
  allowed_by none addr port = false
  allowed_by (some rs) addr port = rules_allow rs addr port

  -- A TCP connection from a selected pod to a port of an address.
  abbrev pub allows_egress : NetworkPolicy → String → ℤ → Bool
  allows_egress p addr port =
      if has_egress p.policy_types then allowed_by p.egress_rules addr port else true

  -- A connection to a port of a selected pod from an address.
  abbrev pub allows_ingress : NetworkPolicy → String → ℤ → Bool
  allows_ingress p addr port =
      if has_ingress p.policy_types then allowed_by p.ingress_rules addr port else true

  -- A policy built for labels cuts the selected pods off in its direction: an Egress policy lets
  -- nothing out and everything in, an Ingress policy the reverse, and a policy of another direction
  -- lets nothing through.
  build_labels-denies :
      (s : Spec) (addr : String) (port : ℤ)
      → str_eq s.dest_cidr "" ≡ true
      → (allows_egress (build s) addr port ≡ str_eq s.direction "Ingress")
        × (allows_ingress (build s) addr port ≡ str_eq s.direction "Egress")
  unfolding build
  build_labels-denies s addr port e =
      let apart = egress_is_not_ingress s.direction in ground (arith, apart)

  -- An egress policy built for an address block lets out what does not go to the block, if it has
  -- no port. With a port it lets out only what goes to that port: traffic to the block's other
  -- ports, and to every other port of any address, is cut off as well. It lets everything in. The
  -- block 0.0.0.0/0 holds every address.
  pub build_cidr-denies :
      (s : Spec) (addr : String) (port : ℤ)
      → str_eq s.dest_cidr "" ≡ false
      → str_eq s.direction "Egress" ≡ true
      → in_block "0.0.0.0/0" addr ≡ true
      → (allows_egress (build s) addr port ≡ true) ↔ (
          (in_block s.dest_cidr addr ≡ false)
          × ((eq_ℤ s.port (pos 0) ≡ true) ⊎ (eq_ℤ s.port port ≡ true)))
  unfolding build build_ports
  build_cidr-denies s addr port e egress all =
      let not_in = egress_is_not_ingress s.direction egress in
      let not_both = egress_is_not_both s.direction egress in
      (λ h. (ground arith, ground arith), λ h. ground arith)
