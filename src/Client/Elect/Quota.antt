-- ===== src/Client/Elect/Quota.antt =====
-- How many services of a region are elected for a client, and which.
use v2ray_operator.Prelude.{
  zero, suc, String, Option, none, some, List, [], ◌∷◌, Bool, true, false, take, ◌≡◌, refl, ap, ◌∙◌,
  ◌==◌, eq_iff, if◌then◌else◌, arith, Bool-cases, inl, inr,
}
use v2ray_operator.Prelude.Int.{ℤ, pos, negsuc, eqb_ℤ, dec_ℤ}
use v2ray_operator.Prelude.Maps.{Dict, lookup, insert, lookup-insert}
use v2ray_operator.Api.Core.{Service}
use v2ray_operator.Api.Client.{V2rayRegionAffinity, V2rayNodeAffinity}
use v2ray_operator.User.Server.{v2ray_region_label, v2ray_enable_label, v2ray_namespace}
use v2ray_operator.Cluster.Effect.{ok, done, ◌>>=◌}
use v2ray_operator.Cluster.Requests.{Call, History}
use v2ray_operator.Cluster.Env.{Env}
use v2ray_operator.Client.Elect.{
  region_affinity_map, claim, elect_from, elect_services_from_affinity,
}

abbrev region_of : Service → Option String
region_of svc = lookup v2ray_region_label svc.metadata.labels

abbrev labelled_by : String → Option String → Bool
labelled_by region none = false
labelled_by region (some r) = r == region

-- The services that carry the label of the region, in order.
abbrev pub of_region : String → List Service → List Service
of_region region [] = []
of_region region (svc ∷ svcs) =
    let rest = of_region region svcs in
    if labelled_by region (region_of svc) then svc ∷ rest else rest

-- As many of them as the number says: none without a number, all for a number below 0.
abbrev pub quota : Option ℤ → List Service → List Service
quota none svcs = []
quota (some (pos n)) svcs = take n svcs
quota (some (negsuc n)) svcs = svcs

-- The number of a region: that of its last entry, on top of a number given before.
abbrev pub last_num : String → List V2rayRegionAffinity → Option ℤ → Option ℤ
last_num region [] before = before
last_num region (r ∷ rs) before =
    last_num region rs (if r.region == region then some r.nums else before)

lookup-region_affinity_map :
    (region : String) (rs : List V2rayRegionAffinity) (m : Dict ℤ)
    → lookup region (region_affinity_map rs m) ≡ last_num region rs (lookup region m)
unfolding region_affinity_map
lookup-region_affinity_map region [] m = refl
lookup-region_affinity_map region (r ∷ rs) m =
    rw (lookup-region_affinity_map region rs (insert r.region r.nums m), lookup-insert)

quota-nil : (o : Option ℤ) → quota o [] ≡ []
quota-nil none = refl
quota-nil (some (pos zero)) = refl
quota-nil (some (pos (suc n))) = refl
quota-nil (some (negsuc n)) = refl

quota-zero : (num : ℤ) (svcs : List Service) → eqb_ℤ num (pos 0) ≡ true → quota (some num) svcs ≡ []
quota-zero (pos zero) svcs h = refl
quota-zero (pos (suc n)) svcs h = absurd (ground arith)
quota-zero (negsuc n) svcs h = absurd (ground arith)

quota-dec :
    (num : ℤ) (svc : Service) (svcs : List Service)
    → eqb_ℤ num (pos 0) ≡ false
    → quota (some num) (svc ∷ svcs) ≡ svc ∷ quota (some (dec_ℤ num)) svcs
quota-dec (pos zero) svc svcs h = absurd (ground arith)
quota-dec (pos (suc n)) svc svcs h = ground arith
quota-dec (negsuc n) svc svcs h = refl

-- One service more, where the region of the service has the entry `entry` in the map.
of_region-taken :
    (region r : String) (num : ℤ) (m : Dict ℤ) (svc : Service) (svcs rest : List Service)
    → lookup r m ≡ some num
    → eqb_ℤ num (pos 0) ≡ false
    → rest ≡ quota (lookup region (insert r (dec_ℤ num) m)) svcs
    → (if r == region then svc ∷ rest else rest)
      ≡ quota (lookup region m) (if r == region then svc ∷ svcs else svcs)
of_region-taken region r num m svc svcs rest entry asked same = elim (Bool-cases (r == region)) [
  | inl here ↦ grind (arith, eq_iff, quota-dec, lookup-insert)
  | inr there ↦ rw there (rw same (rw lookup-insert (rw there refl)))
]

of_region-elect_from :
    (region : String) (svcs : List Service) (m : Dict ℤ)
    → of_region region (elect_from m svcs) ≡ quota (lookup region m) (of_region region svcs)
unfolding elect_from claim
of_region-elect_from region [] m = rw quota-nil
of_region-elect_from region (svc ∷ svcs) m =
    grind (arith, of_region-elect_from region svcs, of_region-taken, quota-zero, eq_iff)

abbrev enabled : Dict String
enabled = (v2ray_enable_label, "true") ∷ []

-- Where the listing of the enabled services answers with `all`, the election lists once and succeeds,
-- and of every region it elects the first services of `all` that carry the region's label, as many
-- as the last entry of the affinity for the region says: none without an entry, and all of them
-- where that number is below 0.
pub elect-of_region :
    (E : Env) (affinity : V2rayNodeAffinity) (all : List Service) (h : History)
    → E.list_services h v2ray_namespace enabled ≡ ok all
    → (svcs : List Service) × (elect_services_from_affinity E (some affinity) h
        ≡ (done svcs, Call.list_services v2ray_namespace enabled ∷ h))
      × ((region : String)
          → of_region region svcs
            ≡ quota (last_num region affinity.regions none) (of_region region all))
unfolding elect_services_from_affinity ◌>>=◌ lookup
elect-of_region E affinity all h listed = (
  elect_from (region_affinity_map affinity.regions []) all,
  rw listed refl,
  λ region.
      of_region-elect_from region all (region_affinity_map affinity.regions [])
      ∙ ap (λ o. quota o (of_region region all))
          (lookup-region_affinity_map region affinity.regions []),
)
