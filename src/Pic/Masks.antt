-- ===== src/Pic/Masks.antt =====
-- One bit of the interrupt mask.
use xc.Common.{ℕ, zero, suc, ◌+◌, ◌-◌, ◌*◌, ◌/◌, ◌%◌, ◌≤◌, ◌<◌, ◌≡◌, arith, not, ◌&&◌, ◌||◌, ◌==◌}
use xc.Pic.{test_bit, set_bit, clear_bit}

pub test_bit-set_bit : (i m j : ℕ) → test_bit (set_bit m i) j ≡ (j == i || test_bit m j)
unfolding test_bit set_bit
test_bit-set_bit zero m zero = ground arith
test_bit-set_bit zero m (suc j) =
    let half : (m - m % 2 + 1) / 2 ≡ m / 2 = omega arith in rw half (ground arith)
test_bit-set_bit (suc i) m zero = ground arith
test_bit-set_bit (suc i) m (suc j) =
    let half : (m % 2 + 2 * set_bit (m / 2) i) / 2 ≡ set_bit (m / 2) i = omega arith in
    rw half (ground (arith, test_bit-set_bit i (m / 2) j))

pub test_bit-clear_bit : (i m j : ℕ) → test_bit (clear_bit m i) j ≡ (not (j == i) && test_bit m j)
unfolding test_bit clear_bit
test_bit-clear_bit zero m zero = ground arith
test_bit-clear_bit zero m (suc j) =
    let half : (m - m % 2) / 2 ≡ m / 2 = omega arith in rw half (ground arith)
test_bit-clear_bit (suc i) m zero = ground arith
test_bit-clear_bit (suc i) m (suc j) =
    let half : (m % 2 + 2 * clear_bit (m / 2) i) / 2 ≡ clear_bit (m / 2) i = omega arith in
    rw half (ground (arith, test_bit-clear_bit i (m / 2) j))

-- A line of the master leaves the mask of the slave, and a line of the slave that of the master.
pub set_bit-slave : (m i : ℕ) → i < 8 → set_bit m i / 256 % 256 ≡ m / 256 % 256
unfolding set_bit
set_bit-slave m zero h = omega arith
set_bit-slave m (suc zero) h = omega arith
set_bit-slave m (suc (suc zero)) h = omega arith
set_bit-slave m (suc (suc (suc zero))) h = omega arith
set_bit-slave m (suc (suc (suc (suc zero)))) h = omega arith
set_bit-slave m (suc (suc (suc (suc (suc zero))))) h = omega arith
set_bit-slave m (suc (suc (suc (suc (suc (suc zero)))))) h = omega arith
set_bit-slave m (suc (suc (suc (suc (suc (suc (suc zero))))))) h = omega arith
set_bit-slave m (suc (suc (suc (suc (suc (suc (suc (suc k)))))))) h = absurd (omega arith)

set_bit-low :
    (m k : ℕ) → set_bit m (suc (suc (suc (suc (suc (suc (suc (suc k)))))))) % 256 ≡ m % 256
unfolding set_bit
set_bit-low m k = omega arith

pub set_bit-master : (m i : ℕ) → 8 ≤ i → set_bit m i % 256 ≡ m % 256
set_bit-master m i h =
    let k = i - 8 in
    let e : i ≡ suc (suc (suc (suc (suc (suc (suc (suc k))))))) = omega arith in
    rw e (set_bit-low m k)

pub clear_bit-slave : (m i : ℕ) → i < 8 → clear_bit m i / 256 % 256 ≡ m / 256 % 256
unfolding clear_bit
clear_bit-slave m zero h = omega arith
clear_bit-slave m (suc zero) h = omega arith
clear_bit-slave m (suc (suc zero)) h = omega arith
clear_bit-slave m (suc (suc (suc zero))) h = omega arith
clear_bit-slave m (suc (suc (suc (suc zero)))) h = omega arith
clear_bit-slave m (suc (suc (suc (suc (suc zero))))) h = omega arith
clear_bit-slave m (suc (suc (suc (suc (suc (suc zero)))))) h = omega arith
clear_bit-slave m (suc (suc (suc (suc (suc (suc (suc zero))))))) h = omega arith
clear_bit-slave m (suc (suc (suc (suc (suc (suc (suc (suc k)))))))) h = absurd (omega arith)

clear_bit-low :
    (m k : ℕ) → clear_bit m (suc (suc (suc (suc (suc (suc (suc (suc k)))))))) % 256 ≡ m % 256
unfolding clear_bit
clear_bit-low m k = omega arith

pub clear_bit-master : (m i : ℕ) → 8 ≤ i → clear_bit m i % 256 ≡ m % 256
clear_bit-master m i h =
    let k = i - 8 in
    let e : i ≡ suc (suc (suc (suc (suc (suc (suc (suc k))))))) = omega arith in
    rw e (clear_bit-low m k)
