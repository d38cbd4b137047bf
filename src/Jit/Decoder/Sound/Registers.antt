-- ===== src/Jit/Decoder/Sound/Registers.antt =====
-- Register numbers with a REX bit are below 16, and name a register.
use quantum.Prelude.{ℕ, zero, suc, ◌<◌, Bool, true, false, arith}
use Prim.Native.Nat.{bit_or}
use quantum.Jit.Iform.{from_index}
use quantum.Jit.Decoder.ModRm.{reg_index}
use quantum.Jit.Decoder.Sound.Rules.{IsPresent}

or_eight : (low : ℕ) → low < 16 → bit_or 8 low < 16
or_eight zero h = omega arith
or_eight (suc zero) h = omega arith
or_eight (suc (suc zero)) h = omega arith
or_eight (suc (suc (suc zero))) h = omega arith
or_eight (suc (suc (suc (suc zero)))) h = omega arith
or_eight (suc (suc (suc (suc (suc zero))))) h = omega arith
or_eight (suc (suc (suc (suc (suc (suc zero)))))) h = omega arith
or_eight (suc (suc (suc (suc (suc (suc (suc zero))))))) h = omega arith
or_eight (suc (suc (suc (suc (suc (suc (suc (suc zero)))))))) h = omega arith
or_eight (suc (suc (suc (suc (suc (suc (suc (suc (suc zero))))))))) h = omega arith
or_eight (suc (suc (suc (suc (suc (suc (suc (suc (suc (suc zero)))))))))) h = omega arith
or_eight (suc (suc (suc (suc (suc (suc (suc (suc (suc (suc (suc zero))))))))))) h = omega arith
or_eight (suc (suc (suc (suc (suc (suc (suc (suc (suc (suc (suc (suc zero)))))))))))) h =
    omega arith
or_eight (suc (suc (suc (suc (suc (suc (suc (suc (suc (suc (suc (suc (suc zero))))))))))))) h =
    omega arith
or_eight (suc (suc (suc (suc (suc (suc (suc (suc (suc (suc (suc (suc (suc (suc zero))))))))))))))
      h =
    omega arith
or_eight
      (suc (suc (suc (suc (suc (suc (suc (suc (suc (suc (suc (suc (suc (suc (suc zero)))))))))))))))
      h =
    omega arith
or_eight
      (suc
        (suc (suc (suc (suc (suc (suc (suc (suc (suc (suc (suc (suc (suc (suc (suc n))))))))))))))))
      h =
    absurd (omega arith)

or_zero : (low : ℕ) → low < 16 → bit_or 0 low < 16
or_zero zero h = omega arith
or_zero (suc zero) h = omega arith
or_zero (suc (suc zero)) h = omega arith
or_zero (suc (suc (suc zero))) h = omega arith
or_zero (suc (suc (suc (suc zero)))) h = omega arith
or_zero (suc (suc (suc (suc (suc zero))))) h = omega arith
or_zero (suc (suc (suc (suc (suc (suc zero)))))) h = omega arith
or_zero (suc (suc (suc (suc (suc (suc (suc zero))))))) h = omega arith
or_zero (suc (suc (suc (suc (suc (suc (suc (suc zero)))))))) h = omega arith
or_zero (suc (suc (suc (suc (suc (suc (suc (suc (suc zero))))))))) h = omega arith
or_zero (suc (suc (suc (suc (suc (suc (suc (suc (suc (suc zero)))))))))) h = omega arith
or_zero (suc (suc (suc (suc (suc (suc (suc (suc (suc (suc (suc zero))))))))))) h = omega arith
or_zero (suc (suc (suc (suc (suc (suc (suc (suc (suc (suc (suc (suc zero)))))))))))) h = omega arith
or_zero (suc (suc (suc (suc (suc (suc (suc (suc (suc (suc (suc (suc (suc zero))))))))))))) h =
    omega arith
or_zero (suc (suc (suc (suc (suc (suc (suc (suc (suc (suc (suc (suc (suc (suc zero)))))))))))))) h =
    omega arith
or_zero
      (suc (suc (suc (suc (suc (suc (suc (suc (suc (suc (suc (suc (suc (suc (suc zero)))))))))))))))
      h =
    omega arith
or_zero
      (suc
        (suc (suc (suc (suc (suc (suc (suc (suc (suc (suc (suc (suc (suc (suc (suc n))))))))))))))))
      h =
    absurd (omega arith)

-- The REX bit may be set in the field already.
pub reg_index-lt_wide : (high : Bool) (low : ℕ) → low < 16 → reg_index high low < 16
unfolding reg_index
reg_index-lt_wide true low h = or_eight low h
reg_index-lt_wide false low h = or_zero low h

pub reg_index-lt : (high : Bool) (low : ℕ) → low < 8 → reg_index high low < 16
reg_index-lt high low h = reg_index-lt_wide high low (omega arith)

pub from_index-IsPresent : (i : ℕ) → i < 16 → IsPresent (from_index i)
unfolding from_index
from_index-IsPresent zero h = tt
from_index-IsPresent (suc zero) h = tt
from_index-IsPresent (suc (suc zero)) h = tt
from_index-IsPresent (suc (suc (suc zero))) h = tt
from_index-IsPresent (suc (suc (suc (suc zero)))) h = tt
from_index-IsPresent (suc (suc (suc (suc (suc zero))))) h = tt
from_index-IsPresent (suc (suc (suc (suc (suc (suc zero)))))) h = tt
from_index-IsPresent (suc (suc (suc (suc (suc (suc (suc zero))))))) h = tt
from_index-IsPresent (suc (suc (suc (suc (suc (suc (suc (suc zero)))))))) h = tt
from_index-IsPresent (suc (suc (suc (suc (suc (suc (suc (suc (suc zero))))))))) h = tt
from_index-IsPresent (suc (suc (suc (suc (suc (suc (suc (suc (suc (suc zero)))))))))) h = tt
from_index-IsPresent (suc (suc (suc (suc (suc (suc (suc (suc (suc (suc (suc zero))))))))))) h = tt
from_index-IsPresent (suc (suc (suc (suc (suc (suc (suc (suc (suc (suc (suc (suc zero))))))))))))
      h =
    tt
from_index-IsPresent
      (suc (suc (suc (suc (suc (suc (suc (suc (suc (suc (suc (suc (suc zero))))))))))))) h =
    tt
from_index-IsPresent
      (suc (suc (suc (suc (suc (suc (suc (suc (suc (suc (suc (suc (suc (suc zero)))))))))))))) h =
    tt
from_index-IsPresent
      (suc (suc (suc (suc (suc (suc (suc (suc (suc (suc (suc (suc (suc (suc (suc zero)))))))))))))))
      h =
    tt
from_index-IsPresent
      (suc
        (suc (suc (suc (suc (suc (suc (suc (suc (suc (suc (suc (suc (suc (suc (suc i))))))))))))))))
      h =
    absurd (omega arith)
