-- ===== src/Prelude/Keys.antt =====
-- What a `std::map` asks of its keys: `operator==` and `operator<`.
use Prim.Native.Nat.{ℕ}
use Prim.Native.String.{String}
use mathlib.Core.Path.{◌≡◌}
use mathlib.Core.Logic.{◌↔◌}
use mathlib.Core.Bool.{Bool, true}
use mksync.Prelude.Tests.{ltb, ◌==◌, ==_iff, str_eq, str_eq_iff, str_less}

pub record Key {ℓ} (K : Type ℓ) : Type ℓ where
  pub beq : K → K → Bool
  pub less : K → K → Bool
  pub beq_iff : (a b : K) → (beq a b ≡ true) ↔ (a ≡ b)

instance abbrev pub nat_key : Key ℕ
nat_key = record { beq = ◌==◌; less = ltb; beq_iff = ==_iff }

instance abbrev pub text_key : Key String
text_key = record { beq = str_eq; less = str_less; beq_iff = str_eq_iff }
