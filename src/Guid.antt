-- ===== src/Guid.antt =====
-- MakeGuid.c: the fields of a 64-bit identifier. `COUNTER_MOVE`, which the file does not define, is a parameter;
-- by the file's comment it is 29.
pub mod Fields
pub mod Tests
use cpp_project.Base.{ℕ, ◌+◌, ◌-◌, ◌*◌, ◌/◌, ◌%◌, ◌^◌, if◌then◌else◌, ltb}

-- An `int`'s 32 bits extended in sign to 64.
unfoldable pub sign_extend : ℕ → ℕ
sign_extend x = if ltb x (2 ^ 31) then x else x + 2 ^ 64 - 2 ^ 32

-- `tmp << 29` of an `int`, by its 32 bits.
unfoldable pub shift_counter : ℕ → ℕ
shift_counter tmp = tmp * 2 ^ 29 % 2 ^ 32

-- `nTime &= ~(7 << COUNTER_MOVE)`: the three bits from `move` on are cleared.
unfoldable pub mask_time : (move : ℕ) → ℕ → ℕ
mask_time move time = time / 2 ^ (move + 3) * 2 ^ (move + 3) + time % 2 ^ move

-- `m_Guid` as its 64 bits.
unfoldable pub make_guid : (move serverid serverindex increment time : ℕ) → ℕ
unfolding sign_extend shift_counter mask_time
make_guid move serverid serverindex increment time =
    (serverid * 2 ^ 49
      + serverindex * 2 ^ 45
      + sign_extend (shift_counter increment)
      + sign_extend (mask_time move time % 2 ^ 32))
    % 2 ^ 64
