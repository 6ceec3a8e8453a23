-- ===== src/Common/Maps.antt =====
-- An array of the kernel as a map from its indices, written one place at a time.
use Prim.Native.Nat.{ℕ}
use chanux.Common.Tests.{◌==◌, if◌then◌else◌}

abbrev pub update {ℓ} : {A : Type ℓ} → (ℕ → A) → ℕ → A → ℕ → A
update m i v j = if i == j then v else m j
