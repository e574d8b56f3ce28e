-- ===== src/User/Elect/Laws.antt =====
-- Which services are elected, and how many.
use v2ray_operator.Prelude.{
  Bool-cases, inl, inr, ℕ, zero, suc, ◌+◌, ◌≤◌, ltb, eqb, String, List, [], ◌∷◌, ◌++◌, take, length,
  length-append, length-take, ◌≡◌, refl, ap, false, arith, if◌then◌else◌,
}
use mathlib.Core.List.{append-nil, append_assoc}
use v2ray_operator.Prelude.Int.{ℤ, pos, negsuc, eqb_ℤ, ltb_ℤ}
use v2ray_operator.Prelude.Maps.{Dict}
use v2ray_operator.Prelude.Text.{to_lower}
use v2ray_operator.Api.Core.{Service}
use v2ray_operator.Api.User.{V2rayNodeList}
use v2ray_operator.Cluster.Effect.{Reply, ok, err, done, pure, fail, panic, ◌>>=◌}
use v2ray_operator.Cluster.Requests.{Call, History}
use v2ray_operator.Cluster.Env.{Env}
use v2ray_operator.Cluster.Trace.{alters, attempt-request}
use v2ray_operator.Cluster.Yields.{
  Yields, Yields-pure, Yields-any, Yields-bind, Yields-weaken, Yields-done,
}
use v2ray_operator.User.Server.{v2ray_namespace}
use v2ray_operator.User.Elect.{
  min, slice_to, with_default_size, select, region_labels, elect_region, elect_each,
  elect_services_from_affinity,
}

-- The number of services that a region asks for: 1 where its size is 0. A size below 0, which the
-- schema of the resource does not admit, asks for none that could be elected.
abbrev pub wanted_size : ℤ → ℕ
wanted_size (pos n) = if eqb n 0 then 1 else n
wanted_size (negsuc n) = 0

abbrev pub wanted : V2rayNodeList → ℕ
wanted nl = wanted_size nl.size

abbrev pub total_wanted : Dict V2rayNodeList → ℕ
total_wanted [] = 0
total_wanted ((_, nl) ∷ nodes) = wanted nl + total_wanted nodes

-- Every size is 0 or more.
abbrev pub Nonneg : Dict V2rayNodeList → Type 0
Nonneg [] = Unit
Nonneg ((_, nl) ∷ nodes) = (ltb_ℤ nl.size (pos 0) ≡ false) × Nonneg nodes

-- The election, from what each region lists.
abbrev pub elected : (String → List Service) → Dict V2rayNodeList → List Service
elected items [] = []
elected items ((region, nl) ∷ nodes) =
    take (wanted nl) (items (to_lower region)) ++ elected items nodes

take_all : (n : ℕ) (svcs : List Service) → length svcs ≤ n → take n svcs ≡ svcs
take_all zero [] h = refl
take_all zero (svc ∷ svcs) h = absurd (omega arith)
take_all (suc n) [] h = refl
take_all (suc n) (svc ∷ svcs) h = ap (λ l. svc ∷ l) (take_all n svcs (omega arith))

pub size-with_default_size :
    (nl : V2rayNodeList)
    → (with_default_size nl).size ≡ (if eqb_ℤ nl.size (pos 0) then pos 1 else nl.size)
unfolding with_default_size
size-with_default_size nl = ground arith

-- The front of the list, at most as long as wanted.
slice-front :
    (n : ℕ) (item : Service) (items : List Service) (h : History)
    → slice_to (min (pos (length (item ∷ items))) (pos n)) (item ∷ items) h
      ≡ (done (take n (item ∷ items)), h)
unfolding min slice_to pure
slice-front n item items h = elim (Bool-cases (ltb n (length (item ∷ items)))) [
  | inl short ↦ rw short
  | inr long ↦ rw long (
      rw (
        take_all (length (item ∷ items)) (item ∷ items) (ground arith),
        take_all n (item ∷ items) (ground arith),
      ))
]

take-nil : (n : ℕ) → take {A = Service} n [] ≡ []
take-nil zero = refl
take-nil (suc n) = refl

pub select-ok_size :
    (size : ℤ) (items : List Service) (h : History)
    → ltb_ℤ size (pos 0) ≡ false
    → select (if eqb_ℤ size (pos 0) then pos 1 else size) (ok items) h
      ≡ (done (take (wanted_size size) items), h)
unfolding select pure
select-ok_size (pos n) [] h nonneg = rw take-nil
select-ok_size (pos n) (item ∷ items) h nonneg = elim (Bool-cases (eqb n 0)) [
  | inl none_asked ↦ rw none_asked (slice-front 1 item items h)
  | inr asked ↦ rw asked (slice-front n item items h)
]
select-ok_size (negsuc n) items h nonneg = cc

select-length_size :
    (size : ℤ) (r : Reply (List Service))
    → Yields
        (λ (svcs : List Service). length svcs ≤ wanted_size size)
        (select (if eqb_ℤ size (pos 0) then pos 1 else size) r)
unfolding select min slice_to pure fail panic
select-length_size size (err e) = record { at = λ h. ground arith }
select-length_size size (ok []) = record { at = λ h. omega arith }
select-length_size (pos n) (ok (item ∷ items)) = record {
  at = λ h.
      rw (select-ok_size (pos n) (item ∷ items) h (ground arith))
        (omega (arith, length-take (wanted_size (pos n)) (item ∷ items)));
}
select-length_size (negsuc n) (ok (item ∷ items)) = record { at = λ h. tt }

-- `select` takes the front of the list, and no more than is wanted.
select-ok :
    (nl : V2rayNodeList) (items : List Service) (h : History)
    → ltb_ℤ nl.size (pos 0) ≡ false
    → select (with_default_size nl).size (ok items) h ≡ (done (take (wanted nl) items), h)
select-ok nl items h nonneg = rw size-with_default_size (select-ok_size nl.size items h nonneg)

select-length :
    (nl : V2rayNodeList) (r : Reply (List Service))
    → Yields
        (λ (svcs : List Service). length svcs ≤ wanted nl)
        (select (with_default_size nl).size r)
select-length nl r = rw size-with_default_size (select-length_size nl.size r)

module _ (E : Env) where
  elect_region-length :
      (region : String) (nl : V2rayNodeList)
      → Yields (λ (svcs : List Service). length svcs ≤ wanted nl) (elect_region E region nl)
  unfolding elect_region
  elect_region-length region nl = Yields-bind _ _ (Yields-any _) λ found _. select-length nl found

  elect_each-length :
      (nodes : Dict V2rayNodeList) (before : List Service)
      → Yields
          (λ (svcs : List Service). length svcs ≤ length before + total_wanted nodes)
          (elect_each E nodes before)
  unfolding elect_each
  elect_each-length [] before = Yields-pure before (omega arith)
  elect_each-length ((region, nl) ∷ nodes) before =
      Yields-bind _ _ (elect_region-length region nl)
        λ svcs few. widen svcs few (elect_each-length nodes (before ++ svcs))
    where
      widen :
          (svcs : List Service)
          → length svcs ≤ wanted nl
          → Yields
              (λ (all : List Service). length all ≤ length (before ++ svcs) + total_wanted nodes)
              (elect_each E nodes (before ++ svcs))
          → Yields
              (λ (all : List Service).
                length all ≤ length before + (wanted nl + total_wanted nodes))
              (elect_each E nodes (before ++ svcs))
      widen svcs few rest =
          Yields-weaken (λ all bound. omega (arith, length-append before svcs)) rest

  -- An election never yields more services than the regions ask for together.
  pub elect-length-le :
      (nodes : Dict V2rayNodeList) (h : History) {svcs : List Service} {h' : History}
      → elect_services_from_affinity E nodes h ≡ (done svcs, h')
      → length svcs ≤ total_wanted nodes
  unfolding elect_services_from_affinity
  elect-length-le nodes h {svcs} ran =
      omega (arith, Yields-done _ (elect_each E nodes []) h (elect_each-length nodes []) ran)

  pub alters-elect_each :
      (nodes : Dict V2rayNodeList) (before : List Service) (h : History)
      → alters (elect_each E nodes before h).1 ≡ alters h
  unfolding elect_each elect_region select slice_to ◌>>=◌
  alters-elect_each [] before h = refl
  alters-elect_each ((region, nl) ∷ nodes) before h = grind (arith, alters-elect_each nodes)

  -- Each region lists the same services at any time, and lists them without an error.
  abbrev pub StableRegions : (String → List Service) → Type 0
  StableRegions items =
      (h : History) (region : String)
      → E.list_services h v2ray_namespace (region_labels region) ≡ ok (items (to_lower region))

  module _ (items : String → List Service) (stable : StableRegions items) where
    elect_region-ok :
        (region : String) (nl : V2rayNodeList) (h : History)
        → ltb_ℤ nl.size (pos 0) ≡ false
        → elect_region E region nl h ≡ (
          done (take (wanted nl) (items (to_lower region))),
          Call.list_services v2ray_namespace (region_labels region) ∷ h,
        )
    unfolding elect_region ◌>>=◌
    elect_region-ok region nl h nonneg =
        rw attempt-request (rw (stable h region) (select-ok nl _ _ nonneg))

    elect_each-ok :
        (nodes : Dict V2rayNodeList) (before : List Service) (h : History)
        → Nonneg nodes
        → (h' : History) × (elect_each E nodes before h
            ≡ (done (before ++ elected items nodes), h'))
    unfolding elect_each ◌>>=◌
    elect_each-ok [] before h nonneg = (h, rw append-nil)
    elect_each-ok ((region, nl) ∷ nodes) before h (nonneg, rest) =
        let (h', ran) =
          elect_each-ok nodes (before ++ take (wanted nl) (items (to_lower region)))
            (Call.list_services v2ray_namespace (region_labels region) ∷ h) rest in
        (h', rw (elect_region-ok region nl h nonneg, ran, append_assoc))

-- Where every region lists the same services at any time, and no size is below 0, the election
-- returns, for each region in turn, the first services that it lists, as many as the region asks for,
-- or all of them where it lists fewer.
pub elect-elected :
    (E : Env) (items : String → List Service)
    → StableRegions E items
    → (nodes : Dict V2rayNodeList) (h : History) → Nonneg nodes
    → (elect_services_from_affinity E nodes h).0 ≡ done (elected items nodes)
unfolding elect_services_from_affinity
elect-elected E items stable nodes h nonneg =
    let (h', ran) = elect_each-ok E items stable nodes [] h nonneg in rw ran
