-- ===== src/Copies/Shared.antt =====
-- The copy of a configuration in internal/managers/v2fly/structs.go is not deep: what it shares.
use v2ray_operator.Prelude.{
  ℕ, ◌≡◌, Option, none, some, List, [], ◌∷◌, refl, sym, ap, ◌∙◌, arith, inl, inr, Option-cases,
}
use v2ray_operator.Copies.Heap.{Ref, CellOf, fetch, get_elem?, set, get_elem?-set_self}
use v2ray_operator.Copies.Heap.Deep.{View, Grows-Within}
use v2ray_operator.Copies.Heap.Pointers.{view_pointer, view_pointer-some, fetch-Within}
use v2ray_operator.Copies.Heap.Slices.{both-some, view_slice}
use v2ray_operator.Copies.Heap.Writes.{get_elem?-lt, new_copy-Independent}
use v2ray_operator.Copies.Structs.{
  V2rayInboundConfig, V2rayOutboundConfig, V2rayRoutingRulesConfig, V2rayInstanceConfig,
}
use v2ray_operator.Copies.Cells.{Foreign, Cell, routing}
use v2ray_operator.Copies.Cells.Clients.{config_cell, routing_cell, inbounds_cell, outbounds_cell}
use v2ray_operator.Copies.V2rayInstanceConfig as Config

-- A value that is not nil comes from a pointer that is not nil.
pointed :
    {C X V : Type 0} ⦃c : CellOf C X⦄ (view : View C X V) (h : List C) (q : Ref) (v : V)
    → view_pointer view h q ≡ some (some v)
    → (a : ℕ) × (x : X) × (q ≡ some a) × (fetch h a ≡ some x) × (view h x ≡ some v)
pointed view h none v e = absurd (ground arith)
pointed view h (some a) v e =
    let (x, u, there, good, ev) = view_pointer-some view h a (some v) e in
    (a, x, refl, there, rw good (ground (arith, ev)))

fetch-get_elem? :
    {C X : Type 0} ⦃c : CellOf C X⦄ (h : List C) (a : ℕ) {x : X}
    → fetch h a ≡ some x
    → (held : C) × (get_elem? h a ≡ some held)
fetch-get_elem? h a e = elim (Option-cases (get_elem? h a)) [
  | inl gone ↦ absurd (ground (arith, gone))
  | inr there ↦ there
]

module _ {F : Foreign} where
  routing_behind :
      List (Cell F) → Option (V2rayInstanceConfig Ref Ref) → Option V2rayRoutingRulesConfig
  routing_behind h none = none
  routing_behind h (some config) = elim config.routing [ none ↦ none | some r ↦ fetch h r ]

  -- What the routing pointer of the configuration at the address leads to.
  pub routing_at : List (Cell F) → ℕ → Option V2rayRoutingRulesConfig
  unfolding routing_behind
  routing_at h a = routing_behind h (fetch h a)

  view-routing :
      (h : List (Cell F)) (config : V2rayInstanceConfig Ref Ref) (v : Config.Value)
      → Config.view h config ≡ some v
      → config.routing ≡ v.routing
  view-routing h config v e =
      let (i, o, ei, eo, ev) =
        both-some
          (λ (inbounds : Option (List V2rayInboundConfig))
              (outbounds : Option (List V2rayOutboundConfig)).
            let value : Config.Value = record {
              log = config.log;
              inbounds = inbounds;
              outbounds = outbounds;
              transport = config.transport;
              policy = config.policy;
              api = config.api;
              stats = config.stats;
              routing = config.routing;
            } in
            value)
          (view_slice V2rayInboundConfig h config.inbounds)
          (view_slice V2rayOutboundConfig h config.outbounds) v e in
      ground (arith, ev)

  -- A configuration with the value `v` has the routing that stands at the address in `v`.
  routing_at-view :
      (h : List (Cell F)) (q r : ℕ) (v : Config.Value) (rules : V2rayRoutingRulesConfig)
      → view_pointer Config.view h (some q) ≡ some (some v)
      → v.routing ≡ some r
      → fetch h r ≡ some rules
      → routing_at h q ≡ some rules
  unfolding routing_at
  routing_at-view h q r v rules e to_rules there =
      let (x, u, held, good, eu) = view_pointer-some Config.view h q (some v) e in
      let same : u ≡ v = ground (arith, eu) in
      let followed : x.routing ≡ some r =
        view-routing h x u good ∙ ap V2rayInstanceConfig.routing same ∙ to_rules in
      rw (held, routing_behind, followed) there

  -- `DeepCopy` of a configuration that has routing rules makes a copy with those rules; but it shares
  -- them with the original, so other rules, written behind the original's pointer, are the copy's too.
  pub routing_shared :
      (h : List (Cell F)) (p r : ℕ) (config : V2rayInstanceConfig Ref Ref) (v : Config.Value)
      (rules other : V2rayRoutingRulesConfig)
      → fetch h p ≡ some config
      → Config.view h config ≡ some v
      → config.routing ≡ some r
      → fetch h r ≡ some rules
      → (q : ℕ) × (h' : List (Cell F)) × (Config.deep_copy (some p) h ≡ some (some q, h'))
        × (routing_at h' q ≡ some rules)
        × (routing_at (set h' r (routing other)) q ≡ some other)
  unfolding Config.deep_copy routing_at
  routing_shared h p r config v rules other there good to_rules e =
      let (held, cell) = fetch-get_elem? h r e in
      let seen : view_pointer Config.view h (some p) ≡ some (some v) =
        rw (there, good, view_pointer) in
      let (q, h', ran, (grows, copied, kept, _)) =
        new_copy-Independent Config.Deep-deep_copy_into h (some p) (some v)
          ((r, routing other) ∷ []) [] seen (get_elem?-lt h r cell, tt) tt in
      let (a, x, eq, _, _) = pointed Config.view h' q v copied in
      let at_r : v.routing ≡ some r = sym (view-routing h config v good) ∙ to_rules in
      (
        a,
        h',
        rw eq at ran,
        routing_at-view h' a r v rules (rw eq at copied) at_r
            (fetch-Within 0 h h' r (Grows-Within 0 grows) (omega arith) e),
        routing_at-view (set h' r (routing other)) a r v other (rw eq at kept) at_r (
            rw
              (
                get_elem?-set_self h' r (routing other)
                    (Grows-Within 0 grows r held (omega arith) cell),
                fetch,
              )
              refl),
      )
