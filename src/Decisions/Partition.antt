-- ===== src/Decisions/Partition.antt =====
-- Which requests of a stage are recorded: `partitionRequests` of packages/core/src/decisions.ts.
use mathlib.Core.List.{Sublistᴰ}
use specmate.Prelude.{
  ℕ, suc, ◌-◌, min, ◌≤◌, ◌≡◌, refl, inl, inr, Bool, true, false, not, List, [], ◌∷◌, ◌++◌, filter,
  length, if◌then◌else◌, arith, leb, leb_iff, Bool-cases, List-cases, ap, sym, subst, ◌∙◌,
}
use specmate.Decisions.{
  DecisionRequest, PartitionedRequests, partition_requests, partition_from, with_recorded,
  with_refused,
}

abbrev pub is_asking : DecisionRequest → Bool
is_asking r = not r.blocking

abbrev pub is_blocking : DecisionRequest → Bool
is_blocking r = r.blocking

-- What the partition keeps of `requests`, after `seen` non-blocking ones.
pub record IsPartition (limit seen : ℕ) (requests : List DecisionRequest) (p : PartitionedRequests)
    : Type 0 where
  pub blocking_kept : filter is_blocking p.recorded ≡ filter is_blocking requests
  pub asking_kept : filter is_asking p.recorded ++ p.refused ≡ filter is_asking requests
  pub bounded :
      length (filter is_asking p.recorded) ≡ min (limit - seen) (length (filter is_asking requests))
  pub in_order : Sublistᴰ p.recorded requests

module _ (limit : ℕ) (r : DecisionRequest) (requests : List DecisionRequest)
    (p : PartitionedRequests) where
  record_blocking :
      (seen : ℕ)
      → r.blocking ≡ true
      → IsPartition limit seen requests p
      → IsPartition limit seen (r ∷ requests) (with_recorded r p)
  record_blocking seen t rest = record {
    blocking_kept = simp (t, rest.blocking_kept);
    asking_kept = simp (t, rest.asking_kept);
    bounded = simp (t, rest.bounded);
    in_order = Sublistᴰ.cons-cons refl rest.in_order;
  }

  record_asking :
      (seen : ℕ)
      → r.blocking ≡ false
      → suc seen ≤ limit
      → IsPartition limit (suc seen) requests p
      → IsPartition limit seen (r ∷ requests) (with_recorded r p)
  record_asking seen f fits rest = record {
    blocking_kept = simp (f, rest.blocking_kept);
    asking_kept = simp (f, rest.asking_kept);
    bounded = ground (arith, rest.bounded);
    in_order = Sublistᴰ.cons-cons refl rest.in_order;
  }

  none_asked :
      (seen : ℕ)
      → limit ≤ seen
      → IsPartition limit seen requests p
      → filter is_asking p.recorded ≡ []
  none_asked seen late rest = elim (List-cases (filter is_asking p.recorded)) [
    | inl e ↦ e
    | inr (x, xs, e) ↦ absurd (omega (arith, rest.bounded, ap length e))
  ]

  refuse_asking :
      (seen : ℕ)
      → r.blocking ≡ false
      → limit ≤ seen
      → IsPartition limit (suc seen) requests p
      → IsPartition limit seen (r ∷ requests) (with_refused r p)
  refuse_asking seen f late rest =
      let quiet = none_asked (suc seen) (omega arith) rest in
      let asked : p.refused ≡ filter is_asking requests = rw quiet at rest.asking_kept in
      record {
        blocking_kept = simp (f, rest.blocking_kept);
        asking_kept = simp (f, quiet, asked);
        bounded = ground (arith, rw quiet at rest.bounded);
        in_order = Sublistᴰ.cons rest.in_order;
      }

if_true {ℓ} : {A : Type ℓ} → (a b : A) (t : Bool) → t ≡ true → (if t then a else b) ≡ a
if_true a b true e = refl
if_true a b false e = cc

if_false {ℓ} : {A : Type ℓ} → (a b : A) (t : Bool) → t ≡ false → (if t then a else b) ≡ b
if_false a b true e = cc
if_false a b false e = refl

along :
    (limit seen : ℕ) (requests : List DecisionRequest) {p q : PartitionedRequests}
    → p ≡ q
    → IsPartition limit seen requests q
    → IsPartition limit seen requests p
along limit seen requests e h = subst (IsPartition limit seen requests) (sym e) h

partition_from-IsPartition :
    (limit : ℕ) (requests : List DecisionRequest) (seen : ℕ)
    → IsPartition limit seen requests (partition_from limit seen requests)
unfolding partition_from
partition_from-IsPartition limit [] seen = record {
  blocking_kept = refl;
  asking_kept = refl;
  bounded = omega arith;
  in_order = Sublistᴰ.slnil;
}
partition_from-IsPartition limit (r ∷ requests) seen =
    let same = partition_from-IsPartition limit requests seen in
    let next = partition_from-IsPartition limit requests (suc seen) in
    elim (Bool-cases r.blocking) [
      | inl t ↦
          along limit seen (r ∷ requests) (if_true _ _ r.blocking t)
            (record_blocking limit r requests _ seen t same)
      | inr f ↦ elim (Bool-cases (leb (suc seen) limit)) [
        | inl fits ↦
            along limit seen (r ∷ requests)
              (if_false _ _ r.blocking f ∙ if_true _ _ (leb (suc seen) limit) fits)
              (record_asking limit r requests _ seen f (ground (arith, leb_iff (suc seen) limit))
                next)
        | inr late ↦
            along limit seen (r ∷ requests)
              (if_false _ _ r.blocking f ∙ if_false _ _ (leb (suc seen) limit) late)
              (refuse_asking limit r requests _ seen f (ground (arith, leb_iff (suc seen) limit))
                next)
      ]
    ]

-- `partitionRequests` records every blocking request, and of the others the first ones, up to the
-- cap or their number; it refuses the rest of them, and it keeps the order of the requests.
pub partition_requests-IsPartition :
    (requests : List DecisionRequest) (limit : ℕ)
    → IsPartition limit 0 requests (partition_requests requests limit)
unfolding partition_requests
partition_requests-IsPartition requests limit = partition_from-IsPartition limit requests 0
