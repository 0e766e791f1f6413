-- ===== src/Uuid/Tests.antt =====
-- Tests of src/util/uuid.cpp.
use natt.Prelude.{◌≡◌, arith, refl, txt, take, drop}
use natt.Uuid.{hex_fixed, hex8, hex4, with_version, with_variant, generate_uuid}
use natt.Uuid.Layout.{IsUuid, generate_uuid-IsUuid}

-- The last group repeats four digits and never shows the last four of the second number.
uuid_run :
    generate_uuid 0x0123456789ABCDEF 0xFEDCBA9876543210 ≡ txt "01234567-89ab-4def-bedc-ba98ba987654"
unfolding generate_uuid hex8 hex4 hex_fixed with_version with_variant
uuid_run = refl

generate_uuid-IsUuid_example :
    IsUuid (generate_uuid 0 7)
    × (take 4 (drop 24 (generate_uuid 0 7)) ≡ take 4 (drop 28 (generate_uuid 0 7)))
    × (generate_uuid 0 9 ≡ generate_uuid 0 7)
generate_uuid-IsUuid_example = generate_uuid-IsUuid 0 7 9 (ground arith)
