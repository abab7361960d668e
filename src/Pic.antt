-- ===== src/Pic.antt =====
-- The interrupt controller, in kernel/i8259.c: two chips of eight lines each, whose mask registers are
-- written through ports, with a copy of what they are to hold in `cached_irq_mask`. What the ports hold
-- when they are read is a parameter, and the order of the writes is recorded, the latest first.
pub mod Masks
pub mod Synced
use xc.Common.{
  ℕ, zero, suc, ◌+◌, ◌-◌, ◌*◌, ◌/◌, ◌%◌, ◌^◌, Bool, true, false, not, ◌&&◌, ◌||◌, List, [], ◌∷◌,
  ltb, leb, ◌==◌, if◌then◌else◌,
}

-- mask & (1 << irq)
unfoldable pub test_bit : ℕ → ℕ → Bool
test_bit mask zero = mask % 2 == 1
test_bit mask (suc irq) = test_bit (mask / 2) irq

-- mask |= 1 << irq
unfoldable pub set_bit : ℕ → ℕ → ℕ
set_bit mask zero = mask - mask % 2 + 1
set_bit mask (suc irq) = mask % 2 + 2 * set_bit (mask / 2) irq

-- mask &= ~(1 << irq)
unfoldable pub clear_bit : ℕ → ℕ → ℕ
clear_bit mask zero = mask - mask % 2
clear_bit mask (suc irq) = mask % 2 + 2 * clear_bit (mask / 2) irq

abbrev pub pic_master_cmd : ℕ
pic_master_cmd = 0x20

abbrev pub pic_master_imr : ℕ
pic_master_imr = 0x21

abbrev pub pic_slave_cmd : ℕ
pic_slave_cmd = 0xa0

abbrev pub pic_slave_imr : ℕ
pic_slave_imr = 0xa1

abbrev pub pic_cascade_ir : ℕ
pic_cascade_ir = 2

-- A write to a port.
pub record Out : Type 0 where
  pub value : ℕ
  pub port : ℕ

-- `master_imr` and `slave_imr` are the bytes last written to the mask registers.
pub record Pic : Type 0 where
  pub cached_irq_mask : ℕ
  pub master_imr : ℕ
  pub slave_imr : ℕ
  pub irq_err_count : ℕ
  pub spurious_irq_mask : ℕ
  pub outs : List Out

unfoldable pub outb : Pic → ℕ → ℕ → Pic
outb pic value port = record pic {
  master_imr = if port == pic_master_imr then value else pic.master_imr;
  slave_imr = if port == pic_slave_imr then value else pic.slave_imr;
  outs = record { value = value; port = port } ∷ pic.outs;
}

unfoldable pub cached_master_mask : Pic → ℕ
cached_master_mask pic = pic.cached_irq_mask % 0x100

unfoldable pub cached_slave_mask : Pic → ℕ
cached_slave_mask pic = pic.cached_irq_mask / 0x100 % 0x100

-- irq & 8, on the lines 0 to 15.
unfoldable pub is_slave : ℕ → Bool
is_slave irq = leb 8 (irq % 16)

unfoldable pub write_mask : Pic → ℕ → Pic
write_mask pic irq =
    if is_slave irq
    then outb pic (cached_slave_mask pic) pic_slave_imr
    else outb pic (cached_master_mask pic) pic_master_imr

unfoldable pub mask_8259a_irq : Pic → ℕ → Pic
mask_8259a_irq pic irq =
    write_mask (record pic { cached_irq_mask = set_bit pic.cached_irq_mask irq }) irq

unfoldable pub unmask_8259a_irq : Pic → ℕ → Pic
unmask_8259a_irq pic irq =
    write_mask (record pic { cached_irq_mask = clear_bit pic.cached_irq_mask irq }) irq

-- The registers that are read: `irr` and `isr` of a chip, by its command port.
pub record Registers : Type 0 where
  pub irr : ℕ → ℕ
  pub isr : ℕ → ℕ

unfoldable pub irq_pending : Registers → ℕ → Bool
irq_pending registers irq =
    if ltb irq 8
    then test_bit (registers.irr pic_master_cmd) irq
    else test_bit (registers.irr pic_slave_cmd) (irq - 8)

-- The value that is read from the slave is not tested for the line's bit.
unfoldable pub irq_real : Registers → Pic → ℕ → Bool × Pic
irq_real registers pic irq =
    if ltb irq 8
    then (
      test_bit (registers.isr pic_master_cmd) irq,
      outb (outb pic 0x0b pic_master_cmd) 0x0a pic_master_cmd,
    )
    else (
      not (registers.isr pic_slave_cmd == 0),
      outb (outb pic 0x0b pic_slave_cmd) 0x0a pic_slave_cmd,
    )

-- handle_real_irq: the mask is written, and the end of the interrupt.
unfoldable pub handle_real_irq : Pic → ℕ → Pic
handle_real_irq pic irq =
    let slave =
      outb (outb pic (cached_slave_mask pic) pic_slave_imr) (0x60 + irq % 8) pic_slave_cmd in
    if is_slave irq
    then outb slave (0x60 + pic_cascade_ir) pic_master_cmd
    else outb (outb pic (cached_master_mask pic) pic_master_imr) (0x60 + irq) pic_master_cmd

-- irq_err_count is an atomic_t of 32 bits.
unfoldable pub count_spurious : Pic → ℕ → Pic
count_spurious pic irq = record pic {
  spurious_irq_mask = set_bit pic.spurious_irq_mask irq;
  irq_err_count = (pic.irq_err_count + 1) % 2 ^ 32;
}

unfoldable pub mask_and_ack : Registers → Pic → ℕ → Pic
mask_and_ack registers pic irq =
    let real = irq_real registers pic irq in
    let spurious = handle_real_irq (if real.0 then real.1 else count_spurious real.1 irq) irq in
    if test_bit pic.cached_irq_mask irq
    then spurious
    else handle_real_irq (record pic { cached_irq_mask = set_bit pic.cached_irq_mask irq }) irq

-- Also `i8259A_shutdown`.
unfoldable pub mask_8259a : Pic → Pic
mask_8259a pic = outb (outb pic 0xff pic_master_imr) 0xff pic_slave_imr

unfoldable pub unmask_8259a : Pic → Pic
unmask_8259a pic =
    let master = outb pic (cached_master_mask pic) pic_master_imr in
    outb master (cached_slave_mask master) pic_slave_imr

-- The initialisation words of one chip, which follow 0x11 on the command port.
unfoldable pub init_words : Pic → ℕ → ℕ → ℕ → ℕ → ℕ → Pic
init_words pic cmd imr vector cascade icw4 =
    outb (outb (outb (outb pic 0x11 cmd) vector imr) cascade imr) icw4 imr

abbrev pub irq0_vector : ℕ
irq0_vector = 0x30

abbrev pub irq8_vector : ℕ
irq8_vector = 0x38

-- `init_8259A`, without the callback that it sets in the chip.
unfoldable pub init_8259a : Pic → Bool → Pic
init_8259a pic auto_eoi =
    let master =
      init_words (mask_8259a pic) pic_master_cmd pic_master_imr irq0_vector (2 ^ pic_cascade_ir)
        (if auto_eoi then 3 else 1) in
    unmask_8259a (init_words master pic_slave_cmd pic_slave_imr irq8_vector pic_cascade_ir 1)
