-- ===== src/Tests/E820Tests.antt =====
-- kernel/e820.c on a map of two entries of memory around the hole below 1 MB.
use xc.Common.{ℕ, zero, suc, ◌≡◌, refl, inl, arith, [], ◌∷◌, Array, of_list, add64}
use Prim.Native.Nat.{min}
use xc.Memblock.{Table, Memblock, empty_region}
use xc.E820.{
  E820Entry, E820Map, is_memory, pfn_of, end_pfn_loop, e820_end_pfn, memblock_x86_fill,
  max_arch_pfn,
}
use xc.E820.Fill.{IsProper, IsFilled, memblock_x86_fill-IsFilled}
use xc.E820.EndPfn.{last_end, e820_end_pfn-last_end}

abbrev entry : ℕ → ℕ → ℕ → E820Entry
entry addr size type = record { addr = addr; size = size; type = type }

abbrev bios : Array E820Entry
bios =
    of_list (entry 0 0x9f000 1 ∷ entry 0xf0000 0x10000 2 ∷ entry 0x10_0000 0x7f0_0000 1 ∷ [])
      (entry 0 0 0)

abbrev bios_map : E820Map
bios_map = record { nr_map = 3; map = bios }

end_run : e820_end_pfn bios_map max_arch_pfn 1 ≡ 0x8000
unfolding e820_end_pfn end_pfn_loop pfn_of add64
end_run = refl

abbrev blank_table : Table
blank_table = record { cnt = 1; max = 128; regions = λ k. empty_region }

abbrev blank : Memblock
blank = record {
  current_limit = 0xffff_ffff_ffff_ffff;
  memory_size = 0;
  memory = blank_table;
  reserved = blank_table;
}

bios-IsProper : IsProper 3 bios
unfolding is_memory
bios-IsProper zero h e = (omega arith, omega arith)
bios-IsProper (suc zero) h e = absurd (ground (arith, e))
bios-IsProper (suc (suc zero)) h e = (omega arith, omega arith)
bios-IsProper (suc (suc (suc i))) h e = absurd (omega arith)

memblock_x86_fill-IsFilled_example : IsFilled blank 3 bios (memblock_x86_fill bios_map blank)
memblock_x86_fill-IsFilled_example =
    memblock_x86_fill-IsFilled bios_map blank bios-IsProper (inl (refl, refl)) (omega arith)
      (omega arith)

e820_end_pfn-last_end_example :
    e820_end_pfn bios_map max_arch_pfn 1 ≡ min (last_end 3 0 bios max_arch_pfn 1) max_arch_pfn
e820_end_pfn-last_end_example = e820_end_pfn-last_end bios_map max_arch_pfn 1
