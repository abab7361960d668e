-- ===== src/ZoneList.antt =====
-- The zone list of a node: how mm/page_alloc.c builds it, and the walk over it of mm/mmzone.c and
-- include/Xc/mmzone.h. There is one node, so that its own zones are all that the list holds. A zone is its
-- number in the node, and a place in the list is its index.
pub mod Visits
use xc.Common.{ℕ, zero, suc, ◌+◌, Option, none, some, not, ltb, ◌==◌, if◌then◌else◌, Array, update}
use xc.ZoneSize.{max_nr_zones}

pub record ZoneRef : Type 0 where
  pub zone : Option ℕ
  pub zone_idx : ℕ

unfoldable pub zoneref_set_zone : ℕ → ZoneRef
zoneref_set_zone zone = record { zone = some zone; zone_idx = zone }

-- do { ... } while (zone_type), with the zones below `n` left: the list, and how many places it uses.
-- `present` has the pages present in each zone.
unfoldable pub build_zonelists_node : ℕ → Array ℕ → Array ZoneRef → ℕ → Array ZoneRef × ℕ
build_zonelists_node zero present refs nr_zones = (refs, nr_zones)
build_zonelists_node (suc zone_type) present refs nr_zones =
    let put = update refs nr_zones (zoneref_set_zone zone_type) in
    let with_zone = build_zonelists_node zone_type present put (nr_zones + 1) in
    let without = build_zonelists_node zone_type present refs nr_zones in
    if present zone_type == 0 then without else with_zone

-- zonelist->_zonerefs[j].zone = NULL
unfoldable pub end_zonelist : Array ZoneRef × ℕ → Array ZoneRef
end_zonelist (refs, j) = update refs j (record { zone = none; zone_idx = 0 })

unfoldable pub build_zonelists : Array ℕ → Array ZoneRef → Array ZoneRef
build_zonelists present refs = end_zonelist (build_zonelists_node max_nr_zones present refs 0)

-- while (zonelist_zone_idx(z) > highest_zoneidx) z++, with fuel: the place, and its zone.
unfoldable pub next_zones_zonelist : ℕ → Array ZoneRef → ℕ → ℕ → ℕ × Option ℕ
next_zones_zonelist zero refs z highest_zoneidx = (z, none)
next_zones_zonelist (suc fuel) refs z highest_zoneidx =
    let rest = next_zones_zonelist fuel refs (z + 1) highest_zoneidx in
    if ltb highest_zoneidx (refs z).zone_idx then rest else (z, (refs z).zone)

abbrev pub max_zones_per_zonelist : ℕ
max_zones_per_zonelist = 3

-- for_each_zone_zonelist(zone, z, zlist, highidx), with fuel: `body` on the state of the loop.
unfoldable pub walk_zones {ℓ} : {S : Type ℓ} → (ℕ → S → S) → Array ZoneRef → ℕ → ℕ → ℕ → S → S
walk_zones body refs highidx zero z s = s
walk_zones body refs highidx (suc fuel) z s =
    let (z', zone) = next_zones_zonelist (max_zones_per_zonelist + 1) refs z highidx in
    elim zone [ none ↦ s | some zone' ↦ walk_zones body refs highidx fuel (z' + 1) (body zone' s) ]

unfoldable pub for_each_zone {ℓ} : {S : Type ℓ} → (ℕ → S → S) → Array ZoneRef → ℕ → S → S
for_each_zone body refs highidx s = walk_zones body refs highidx (max_zones_per_zonelist + 1) 0 s
