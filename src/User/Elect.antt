-- ===== src/User/Elect.antt =====
-- `electServicesFromAffinity`: for every region of the node list, the first services that carry the
-- region's label, as many as the region asks for.
pub mod Laws
use v2ray_operator.Prelude.{String, List, [], ◌∷◌, ◌++◌, take, length, if◌then◌else◌}
use v2ray_operator.Prelude.Int.{ℤ, pos, negsuc, eqb_ℤ, ltb_ℤ}
use v2ray_operator.Prelude.Maps.{Dict}
use v2ray_operator.Prelude.Text.{to_lower}
use v2ray_operator.Api.Core.{Service}
use v2ray_operator.Api.User.{V2rayNodeList}
use v2ray_operator.Cluster.Effect.{M, Reply, ok, err, pure, fail, panic, attempt, ◌>>=◌}
use v2ray_operator.Cluster.Env.{Env}
use v2ray_operator.Cluster.Client
use v2ray_operator.User.Server.{v2ray_namespace, v2ray_region_label, v2ray_enable_label}

-- `func min(a, b int) int`
unfoldable pub min : ℤ → ℤ → ℤ
min a b = if ltb_ℤ b a then b else a

-- `items[:size]`, within the length of the list; a negative bound panics.
unfoldable pub slice_to : ℤ → List Service → M (List Service)
slice_to (pos n) items = pure (take n items)
slice_to (negsuc n) items = panic "slice bounds out of range"

-- A size of 0 counts as 1, and is written back into the node list.
unfoldable pub with_default_size : V2rayNodeList → V2rayNodeList
with_default_size nl = if eqb_ℤ nl.size (pos 0) then record nl { size = pos 1 } else nl

unfoldable pub defaulted : Dict V2rayNodeList → Dict V2rayNodeList
defaulted [] = []
defaulted ((region, nl) ∷ nodes) = (region, with_default_size nl) ∷ defaulted nodes

unfoldable pub select : ℤ → Reply (List Service) → M (List Service)
select size (err e) = if e.not_found then pure [] else fail e
select size (ok []) = pure []
select size (ok (item ∷ items)) = slice_to (min (pos (length (item ∷ items))) size) (item ∷ items)

-- Both label sets of the call, which have to match together.
abbrev pub region_labels : String → Dict String
region_labels region = (v2ray_enable_label, "true") ∷ (v2ray_region_label, to_lower region) ∷ []

module _ (E : Env) where
  unfoldable pub elect_region : String → V2rayNodeList → M (List Service)
  elect_region region nl = do
    found ← attempt (Client.list_services E v2ray_namespace (region_labels region))
    select (with_default_size nl).size found

  -- The loop, over the services elected so far.
  unfoldable pub elect_each : Dict V2rayNodeList → List Service → M (List Service)
  elect_each [] elected = pure elected
  elect_each ((region, nl) ∷ nodes) elected = do
    svcs ← elect_region region nl
    elect_each nodes (elected ++ svcs)

  unfoldable pub elect_services_from_affinity : Dict V2rayNodeList → M (List Service)
  elect_services_from_affinity nodes = elect_each nodes []
