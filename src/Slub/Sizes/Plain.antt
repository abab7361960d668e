-- ===== src/Slub/Sizes/Plain.antt =====
-- mm/slub.c: the sizes that `calculate_sizes` finds for a cache without the parts for debugging.
use xc.Common.{ℕ, ◌+◌, ◌^◌, ◌≤◌, ◌<◌, ◌≡◌, none}
use xc.Slub.{KmemCache}

-- What aligning a size to a power of two gives.
abbrev IsUp : ℕ → ℕ → ℕ → Type 0
IsUp x a y = (x ≤ y) × ((y < x + a) × (0 < x → a ≤ y))

abbrev IsAlign : ℕ → Type 0
IsAlign a = (k : ℕ) × ((a ≡ 2 ^ k) × ((2 ≤ k) × (k ≤ 5)))

-- A cache as `kmem_cache_open` leaves it to `calculate_sizes`: no constructor, and no room for RCU.
abbrev pub opened : KmemCache → KmemCache
opened s = record s { ctor = none; reserved = 0 }
