-- ===== src/Tests/ZoneListTests.antt =====
-- mm/mmzone.c on a node whose middle zone is empty.
use xc.Common.{ℕ, ◌≡◌, refl, none, List, [], ◌∷◌, Array, of_list}
use xc.ZoneSize.{max_nr_zones}
use xc.ZoneList.{
  ZoneRef, build_zonelists, build_zonelists_node, end_zonelist, zoneref_set_zone,
  next_zones_zonelist, walk_zones, for_each_zone,
}
use xc.ZoneList.Visits.{visit_down, for_each_zone-visit_down}

abbrev pages_of : Array ℕ
pages_of = of_list (0xf00 ∷ 0 ∷ 0x400 ∷ []) 0

abbrev no_refs : Array ZoneRef
no_refs z = record { zone = none; zone_idx = 0 }

abbrev collect : ℕ → List ℕ → List ℕ
collect zone zones = zone ∷ zones

walk_run : for_each_zone collect (build_zonelists pages_of no_refs) 2 [] ≡ 0 ∷ 2 ∷ []
unfolding for_each_zone walk_zones next_zones_zonelist build_zonelists build_zonelists_node
    end_zonelist zoneref_set_zone
walk_run = refl

for_each_zone-visit_down_example :
    for_each_zone collect (build_zonelists pages_of no_refs) 1 []
    ≡ visit_down pages_of 1 collect max_nr_zones []
for_each_zone-visit_down_example = for_each_zone-visit_down pages_of no_refs 1 collect []
