-- ===== src/Guid/Tests.antt =====
-- The identifier of the program's first run.
use cpp_project.Base.{◌+◌, ◌/◌, ◌%◌, ◌^◌, ◌≡◌, refl, arith}
use cpp_project.Guid.{make_guid}
use cpp_project.Guid.Fields.{make_guid_fields}

first_guid : make_guid 29 1 1 0 1600000000 ≡ 598134851768320
unfolding make_guid
first_guid = refl

make_guid_fields_example :
    (make_guid 29 1 1 2 1600000000 / 2 ^ 49 ≡ 1)
    × (make_guid 29 1 1 2 1600000000 / 2 ^ 45 % 2 ^ 4 ≡ 1)
    × (make_guid 29 1 1 2 1600000000 / 2 ^ 29 % 2 ^ 16 ≡ 2)
    × (make_guid 29 1 1 2 1600000000 % 2 ^ 29 ≡ 1600000000 % 2 ^ 29)
    × (make_guid 29 1 1 (2 + 8) 1600000000 ≡ make_guid 29 1 1 2 1600000000)
make_guid_fields_example =
    make_guid_fields 1 1 2 1600000000 (omega arith) (omega arith) (omega arith) (omega arith)
