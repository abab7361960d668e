-- ===== src/ZoneList/Visits.antt =====
-- The walk over a zone list that was built visits the zones of the node that have pages.
use xc.Common.{
  ℕ, zero, suc, ◌+◌, ◌≤◌, ◌<◌, ◌≡◌, refl, sym, ap, subst, ◌∙◌, inl, inr, arith, Option, none, some,
  true, false, Bool-cases, branch_on, ltb, leb, ◌==◌, ==_iff, ==_false, not, ◌&&◌, if◌then◌else◌,
  Array, update,
}
use xc.ZoneSize.{max_nr_zones}
use xc.ZoneList.{
  ZoneRef, zoneref_set_zone, build_zonelists_node, end_zonelist, build_zonelists,
  next_zones_zonelist, max_zones_per_zonelist, walk_zones, for_each_zone,
}

-- The zones below `n` that have pages, up to `highidx`, from the highest to the lowest.
unfoldable pub visit_down {ℓ} : {S : Type ℓ} → Array ℕ → ℕ → (ℕ → S → S) → ℕ → S → S
visit_down present highidx body zero s = s
visit_down present highidx body (suc n) s =
    visit_down present highidx body n
      (if not (present n == 0) && leb n highidx then body n s else s)

module _ (present : Array ℕ) where
  -- From place `k` on the list has the zones below `n` that have pages, from the highest to the lowest, and
  -- its end.
  abbrev IsBuilt : Array ZoneRef → ℕ → ℕ → Type 0
  IsBuilt refs k zero = refs k ≡ record { zone = none; zone_idx = 0 }
  IsBuilt refs k (suc n) =
      (present n ≡ 0 → IsBuilt refs k n)
      × (¬ (present n ≡ 0) → (refs k ≡ zoneref_set_zone n) × IsBuilt refs (suc k) n)

  built_before :
      (n nr k : ℕ) (refs : Array ZoneRef)
      → k < nr
      → end_zonelist (build_zonelists_node n present refs nr) k ≡ refs k
  unfolding build_zonelists_node end_zonelist
  built_before zero nr k refs h = let e : (k == nr) ≡ false = ground arith in rw e refl
  built_before (suc n) nr k refs h = elim (Bool-cases (present n == 0)) [
    | inl e ↦ rw e (built_before n nr k refs h)
    | inr e ↦
        let here : (k == nr) ≡ false = ground arith in
        rw e (
          built_before n (nr + 1) k (update refs nr (zoneref_set_zone n)) (omega arith)
          ∙ rw here refl)
  ]

  put_here :
      (nr : ℕ) (refs : Array ZoneRef) (n : ℕ)
      → update refs nr (zoneref_set_zone n) nr ≡ zoneref_set_zone n
  put_here nr refs n = let here : (nr == nr) ≡ true = ground arith in rw here refl

  build-IsBuilt :
      (n nr : ℕ) (refs : Array ZoneRef)
      → IsBuilt (end_zonelist (build_zonelists_node n present refs nr)) nr n
  unfolding build_zonelists_node end_zonelist
  build-IsBuilt zero nr refs = let e : (nr == nr) ≡ true = ground arith in rw e refl
  build-IsBuilt (suc n) nr refs =
      let put = update refs nr (zoneref_set_zone n) in
      branch_on (λ r. IsBuilt (end_zonelist r) nr (suc n)) (present n == 0) _ _
        (λ e. (λ z. build-IsBuilt n nr refs, λ z. absurd (z ((==_iff _ _).0 e))))
        (λ e.
          let first : end_zonelist (build_zonelists_node n present put (nr + 1)) nr
              ≡ zoneref_set_zone n =
            built_before n (nr + 1) nr put (omega arith) ∙ put_here nr refs n in
          let up : nr + 1 ≡ suc nr = omega arith in
          (
            λ z. absurd (==_false _ _ e z),
            λ z. (
              first,
              subst (λ k. IsBuilt (end_zonelist (build_zonelists_node n present put (nr + 1))) k n)
                  up (build-IsBuilt n (nr + 1) put),
            ),
          ))

  module _ (refs : Array ZoneRef) (highidx : ℕ) where
    -- The next place, with enough fuel.
    next_zones-fuel :
        (n k fuel fuel' : ℕ)
        → IsBuilt refs k n
        → n < fuel
        → n < fuel'
        → next_zones_zonelist fuel refs k highidx ≡ next_zones_zonelist fuel' refs k highidx
    unfolding next_zones_zonelist zoneref_set_zone
    next_zones-fuel n k zero fuel' v p q = absurd (omega arith)
    next_zones-fuel n k (suc fuel) zero v p q = absurd (omega arith)
    next_zones-fuel zero k (suc fuel) (suc fuel') v p q = rw v (ground arith)
    next_zones-fuel (suc n) k (suc fuel) (suc fuel') v p q = elim (Bool-cases (present n == 0)) [
      | inl e ↦
          next_zones-fuel n k (suc fuel) (suc fuel') (v.0 ((==_iff _ _).0 e)) (omega arith)
            (omega arith)
      | inr e ↦
          let (here, rest) = v.1 (==_false _ _ e) in
          let up : k + 1 ≡ suc k = omega arith in
          rw (here, up)
            (ap (λ r. if ltb highidx n then r else (k, some n))
              (next_zones-fuel n (suc k) fuel fuel' rest (omega arith) (omega arith)))
    ]

    module _ {ℓ} {S : Type ℓ} (body : ℕ → S → S) where
      walk_on :
          (fuel k : ℕ) (s : S) (r : ℕ × Option ℕ)
          → next_zones_zonelist (max_zones_per_zonelist + 1) refs k highidx ≡ r
          → walk_zones body refs highidx (suc fuel) k s ≡ (elim (r.1) [
            | none ↦ s
            | some zone ↦ walk_zones body refs highidx fuel (r.0 + 1) (body zone s)
          ])
      unfolding walk_zones
      walk_on fuel k s r e =
          subst
            (λ (r' : ℕ × Option ℕ).
              walk_zones body refs highidx (suc fuel) k s ≡ (elim (r'.1) as (λ x. S) [
                | none ↦ s
                | some zone ↦ walk_zones body refs highidx fuel (r'.0 + 1) (body zone s)
              ]))
            e refl

      walk_zones-visit_down :
          (n k fuel : ℕ) (s : S)
          → IsBuilt refs k n
          → n < fuel
          → n ≤ max_zones_per_zonelist
          → walk_zones body refs highidx fuel k s ≡ visit_down present highidx body n s
      unfolding visit_down next_zones_zonelist zoneref_set_zone
      walk_zones-visit_down n k zero s v p q = absurd (omega arith)
      walk_zones-visit_down zero k (suc fuel) s v p q =
          walk_on fuel k s (k, none) (rw v (ground arith))
      walk_zones-visit_down (suc n) k (suc fuel) s v p q = elim (Bool-cases (present n == 0)) [
        | inl e ↦ rw e (
            walk_zones-visit_down n k (suc fuel) s (v.0 ((==_iff _ _).0 e)) (omega arith)
              (omega arith))
        | inr e ↦
            let (here, rest) = v.1 (==_false _ _ e) in
            let up : k + 1 ≡ suc k = omega arith in
            elim (Bool-cases (ltb highidx n)) [
              | inl above ↦
                  let low : leb n highidx ≡ false = ground (arith, above) in
                  let next = next_zones-fuel n (suc k) 3 4 rest (omega arith) (omega arith) in
                  rw (e, low)
                    (walk_on fuel k s
                        (next_zones_zonelist (max_zones_per_zonelist + 1) refs (suc k) highidx)
                        (rw (here, above, up) next)
                      ∙ sym (walk_on fuel (suc k) s _ refl)
                      ∙ walk_zones-visit_down n (suc k) (suc fuel) s rest (omega arith)
                          (omega arith))
              | inr below ↦
                  let low : leb n highidx ≡ true = ground (arith, below) in
                  rw (e, low)
                    (walk_on fuel k s (k, some n) (rw (here, below) refl)
                      ∙ (rw up (
                          walk_zones-visit_down n (suc k) fuel (body n s) rest (omega arith)
                            (omega arith))))
            ]
      ]

-- The walk over the zone list that was built for a node ends, and visits each zone of the node that has
-- pages and is not above `highidx` once, from the highest to the lowest.
pub for_each_zone-visit_down {ℓ} :
    {S : Type ℓ} (present : Array ℕ) (refs : Array ZoneRef) (highidx : ℕ) (body : ℕ → S → S) (s : S)
    → for_each_zone body (build_zonelists present refs) highidx s
      ≡ visit_down present highidx body max_nr_zones s
unfolding for_each_zone build_zonelists
for_each_zone-visit_down present refs highidx body s =
    walk_zones-visit_down present (build_zonelists present refs) highidx body max_nr_zones 0
      (max_zones_per_zonelist + 1) s (build-IsBuilt present max_nr_zones 0 refs) (omega arith)
      (omega arith)
