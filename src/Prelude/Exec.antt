-- ===== src/Prelude/Exec.antt =====
-- Methods with `&mut self` that may fail: what was written before an early return stays written.
use telemetry_fabric.Prelude.Result.{Result}

abbrev pub Exec {ℓ} : Type ℓ → Type ℓ → Type ℓ → Type ℓ
Exec S E A = S → Result E A × S
