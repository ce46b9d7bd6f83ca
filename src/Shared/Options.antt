-- ===== src/Shared/Options.antt =====
-- Chains of steps that may have no result.

use mathlib.Core.Bool.{Bool, true, false}
use mathlib.Core.Option.{Option, none, some}

infixl 5 ◌>>=◌ ◌>>◌
abbrev pub ◌>>=◌ {ℓ κ} : {A : Type ℓ} {B : Type κ} → Option A → (A → Option B) → Option B
some value >>= next = next value
none >>= next = none

abbrev pub ◌>>◌ {ℓ} : {B : Type ℓ} → Option (Unit {0}) → Option B → Option B
first >> next = first >>= λ _. next

abbrev pub require : Bool → Option (Unit {0})
require true = some tt
require false = none
