-- ===== src/Tests/PicTests.antt =====
-- kernel/i8259.c: line 1 of the master and line 12 of the slave.
use xc.Common.{ℕ, ◌≡◌, refl, arith, [], ◌∷◌, false}
use xc.Pic.{Pic, Registers, test_bit, cached_master_mask, cached_slave_mask}
use xc.Pic.Synced.{IsSynced, mask, unmask, ack, init, run, last_masked, run-IsSynced}

abbrev all_masked : Pic
all_masked = record {
  cached_irq_mask = 0xffff;
  master_imr = 0xff;
  slave_imr = 0xff;
  irq_err_count = 0;
  spurious_irq_mask = 0;
  outs = [];
}

-- Line 3 of the slave is in service.
abbrev one_served : Registers
one_served = record { irr = λ port. 0; isr = λ port. 8 }

all_masked-IsSynced : IsSynced all_masked
unfolding cached_master_mask cached_slave_mask
all_masked-IsSynced = record { master = refl; slave = refl }

run-IsSynced_example :
    let steps = init false ∷ unmask 12 ∷ ack one_served 12 ∷ mask 1 ∷ [] in
    IsSynced (run all_masked steps)
    × ((j : ℕ)
        → test_bit (run all_masked steps).cached_irq_mask j
          ≡ last_masked steps j (test_bit 0xffff j))
run-IsSynced_example =
    run-IsSynced (init false ∷ unmask 12 ∷ ack one_served 12 ∷ mask 1 ∷ []) all_masked
      (omega arith, (omega arith, (omega arith, (omega arith, tt)))) all_masked-IsSynced
