-- ===== src/Guid/Fields.antt =====
-- Which fields an identifier has.
use cpp_project.Base.{ℕ, ◌+◌, ◌*◌, ◌/◌, ◌%◌, ◌^◌, ◌≡◌, ◌<◌, refl, lt→ltb, arith}
use cpp_project.Guid.{sign_extend, shift_counter, mask_time, make_guid}

-- A number of 31 bits is not negative.
positive : (x : ℕ) → x < 2 ^ 31 → sign_extend x ≡ x
unfolding sign_extend
positive x h = rw (lt→ltb x (2 ^ 31) h) refl

counter_bits : (k : ℕ) → k < 4 → shift_counter k ≡ k * 2 ^ 29
unfolding shift_counter
counter_bits k h = omega arith

time_bits : (t : ℕ) → t < 2 ^ 31 → mask_time 29 t % 2 ^ 32 ≡ t % 2 ^ 29
unfolding mask_time
time_bits t h = omega arith

guid_sum :
    (i x k t : ℕ)
    → i < 2 ^ 14
    → x < 2 ^ 4
    → k < 4
    → t < 2 ^ 31
    → make_guid 29 i x k t ≡ i * 2 ^ 49 + x * 2 ^ 45 + k * 2 ^ 29 + t % 2 ^ 29
unfolding make_guid
guid_sum i x k t hi hx hk ht =
    rw
      (
        make_guid,
        counter_bits k hk,
        time_bits t ht,
        positive (k * 2 ^ 29) (omega arith),
        positive (t % 2 ^ 29) (omega arith),
      )
      (omega arith)

counter_repeats : (k : ℕ) → shift_counter (k + 8) ≡ shift_counter k
unfolding shift_counter
counter_repeats k = omega arith

make_guid_repeats :
    (move serverid serverindex increment time : ℕ)
    → make_guid move serverid serverindex (increment + 8) time
      ≡ make_guid move serverid serverindex increment time
unfolding make_guid
make_guid_repeats move i x k t = rw (make_guid, counter_repeats k) refl

-- Up to an increment of 3, and up to the year 2038, the fields can be read from the identifier: the number and
-- the index of the server, the increment, and the 29 lowest bits of the time. The identifier
-- is the same for an increment that is eight higher.
pub make_guid_fields :
    (serverid serverindex increment time : ℕ)
    → serverid < 2 ^ 14
    → serverindex < 2 ^ 4
    → increment < 4
    → time < 2 ^ 31
    → (make_guid 29 serverid serverindex increment time / 2 ^ 49 ≡ serverid)
      × (make_guid 29 serverid serverindex increment time / 2 ^ 45 % 2 ^ 4 ≡ serverindex)
      × (make_guid 29 serverid serverindex increment time / 2 ^ 29 % 2 ^ 16 ≡ increment)
      × (make_guid 29 serverid serverindex increment time % 2 ^ 29 ≡ time % 2 ^ 29)
      × (make_guid 29 serverid serverindex (increment + 8) time
          ≡ make_guid 29 serverid serverindex increment time)
make_guid_fields i x k t hi hx hk ht =
    let sum = guid_sum i x k t hi hx hk ht in
    (
      omega (arith, sum),
      omega (arith, sum),
      omega (arith, sum),
      omega (arith, sum),
      make_guid_repeats 29 i x k t,
    )
