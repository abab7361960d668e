-- ===== src/Sort/Order.antt =====
-- What a comparison has to satisfy for `sort` to sort by it.
use xc.Common.{◌≡◌, Bool, true, false, inl, inr, Bool-cases}

pub record IsOrder {ℓ} {A : Type ℓ} (less : A → A → Bool) : Type ℓ where
  pub asym : (x y : A) → less x y ≡ true → less y x ≡ false
  pub trans : (x y z : A) → less y x ≡ false → less z y ≡ false → less z x ≡ false

pub less_irrefl {ℓ} : {A : Type ℓ} {less : A → A → Bool} → IsOrder less → (x : A) → less x x ≡ false
less_irrefl {less} o x = elim (Bool-cases (less x x)) [ inl e ↦ o.asym x x e | inr e ↦ e ]
