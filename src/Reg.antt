-- ===== src/Reg.antt =====
-- Register classes (src/lib.rs), which physical and virtual registers carry in two bits.
pub mod PReg
pub mod PRegSet
pub mod VReg
pub mod SpillSlot
use regalloc.Prelude.{ℕ, ◌≡◌, refl, Option, none, some, ◌==◌, if◌then◌else◌, arith, ◌<◌}

pub data RegClass : Type 0 where
  int float vector : RegClass

-- `class as u8`
abbrev pub class_code : RegClass → ℕ
class_code int = 0
class_code float = 1
class_code vector = 2

-- The two bits read back; a fourth class is `unreachable!`.
abbrev pub class_of_code : ℕ → Option RegClass
class_of_code n =
    if n == 0 then some int else if n == 1 then some float else if n == 2 then some vector else none

pub class_of_code-class_code : (c : RegClass) → class_of_code (class_code c) ≡ some c
class_of_code-class_code int = refl
class_of_code-class_code float = refl
class_of_code-class_code vector = refl

pub class_code-lt : (c : RegClass) → class_code c < 3
class_code-lt c = ground arith

pub class_of_code_inverse : (n : ℕ) (c : RegClass) → class_of_code n ≡ some c → n ≡ class_code c
class_of_code_inverse n c h = ground arith
