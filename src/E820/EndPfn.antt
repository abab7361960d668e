-- ===== src/E820/EndPfn.antt =====
-- The last page frame that `e820_end_pfn` finds, against a maximum over the entries.
use Prim.Native.Nat.{min, max}
use xc.Common.{ℕ, zero, suc, ◌≤◌, ◌≡◌, arith, ◌&&◌, ltb, ◌==◌, if◌then◌else◌, Array, add64}
use xc.E820.{E820Entry, E820Map, max_arch_pfn, pfn_of, end_pfn_loop, e820_end_pfn}

-- The end of an entry, cut to the limit; 0 of an entry of another type, or behind the limit.
abbrev pub cut_end : ℕ → ℕ → E820Entry → ℕ
cut_end limit_pfn type ei =
    if ei.type == type && ltb (pfn_of ei.addr) limit_pfn
    then min (pfn_of (add64 ei.addr ei.size)) limit_pfn
    else 0

-- The greatest of the ends of `n` entries from `i` on.
unfoldable pub last_end : ℕ → ℕ → Array E820Entry → ℕ → ℕ → ℕ
last_end zero i map limit_pfn type = 0
last_end (suc n) i map limit_pfn type =
    max (cut_end limit_pfn type (map i)) (last_end n (suc i) map limit_pfn type)

last_end-le :
    (n i : ℕ) (map : Array E820Entry) (limit_pfn type : ℕ)
    → last_end n i map limit_pfn type ≤ limit_pfn
unfolding last_end
last_end-le zero i map limit_pfn type = omega arith
last_end-le (suc n) i map limit_pfn type = ground (arith, last_end-le n (suc i) map limit_pfn type)

end_pfn_loop-last_end :
    (n i : ℕ) (map : Array E820Entry) (limit_pfn type last_pfn : ℕ)
    → last_pfn ≤ limit_pfn
    → end_pfn_loop n i map limit_pfn type last_pfn ≡ max last_pfn (last_end n i map limit_pfn type)
unfolding end_pfn_loop last_end
end_pfn_loop-last_end zero i map limit_pfn type last_pfn h = omega arith
end_pfn_loop-last_end (suc n) i map limit_pfn type last_pfn h =
    let end_pfn = pfn_of (add64 (map i).addr (map i).size) in
    ground (
      arith,
      end_pfn_loop-last_end n (suc i) map limit_pfn type last_pfn h,
      end_pfn_loop-last_end n (suc i) map limit_pfn type end_pfn,
      last_end-le n (suc i) map limit_pfn type,
    )

-- `e820_end_pfn`, which stops at the first entry that reaches past the limit, gives the greatest end of the
-- entries of the type that start below the limit, each cut to the limit; and not more than the page frames
-- of 4 GB.
pub e820_end_pfn-last_end :
    (e820 : E820Map) (limit_pfn type : ℕ)
    → e820_end_pfn e820 limit_pfn type
      ≡ min (last_end e820.nr_map 0 e820.map limit_pfn type) max_arch_pfn
unfolding e820_end_pfn
e820_end_pfn-last_end e820 limit_pfn type =
    ground (arith, end_pfn_loop-last_end e820.nr_map 0 e820.map limit_pfn type 0 (omega arith))
