-- ===== src/Maple/Idents.antt =====
-- The tables `ident` and `version` of the Maple devices, maple/controller.c, maple/kbd.c and
-- maple/vmu.c, as lists of bytes.
use lxdream.Base.{ℕ, List, [], ◌∷◌}

abbrev pub controller_ident : List ℕ
controller_ident =
    0x00 ∷ 0x00 ∷ 0x00 ∷ 0x01 ∷ 0x00 ∷ 0x0f ∷ 0x06 ∷ 0xfe ∷ 0x00 ∷ 0x00 ∷ 0x00 ∷ 0x00 ∷ 0x00 ∷ 0x00
    ∷ 0x00 ∷ 0x00 ∷ 0xff ∷ 0x00 ∷ 0x44 ∷ 0x72 ∷ 0x65 ∷ 0x61 ∷ 0x6d ∷ 0x63 ∷ 0x61 ∷ 0x73 ∷ 0x74
    ∷ 0x20 ∷ 0x43 ∷ 0x6f ∷ 0x6e ∷ 0x74 ∷ 0x72 ∷ 0x6f ∷ 0x6c ∷ 0x6c ∷ 0x65 ∷ 0x72 ∷ 0x20 ∷ 0x20
    ∷ 0x20 ∷ 0x20 ∷ 0x20 ∷ 0x20 ∷ 0x20 ∷ 0x20 ∷ 0x20 ∷ 0x20 ∷ 0x50 ∷ 0x72 ∷ 0x6f ∷ 0x64 ∷ 0x75
    ∷ 0x63 ∷ 0x65 ∷ 0x64 ∷ 0x20 ∷ 0x42 ∷ 0x79 ∷ 0x20 ∷ 0x6f ∷ 0x72 ∷ 0x20 ∷ 0x55 ∷ 0x6e ∷ 0x64
    ∷ 0x65 ∷ 0x72 ∷ 0x20 ∷ 0x4c ∷ 0x69 ∷ 0x63 ∷ 0x65 ∷ 0x6e ∷ 0x73 ∷ 0x65 ∷ 0x20 ∷ 0x46 ∷ 0x72
    ∷ 0x6f ∷ 0x6d ∷ 0x20 ∷ 0x53 ∷ 0x45 ∷ 0x47 ∷ 0x41 ∷ 0x20 ∷ 0x45 ∷ 0x4e ∷ 0x54 ∷ 0x45 ∷ 0x52
    ∷ 0x50 ∷ 0x52 ∷ 0x49 ∷ 0x53 ∷ 0x45 ∷ 0x53 ∷ 0x2c ∷ 0x4c ∷ 0x54 ∷ 0x44 ∷ 0x2e ∷ 0x20 ∷ 0x20
    ∷ 0x20 ∷ 0x20 ∷ 0x20 ∷ 0xae ∷ 0x01 ∷ 0xf4 ∷ 0x01 ∷ 0x56 ∷ 0x65 ∷ 0x72 ∷ 0x73 ∷ 0x69 ∷ 0x6f
    ∷ 0x6e ∷ 0x20 ∷ 0x31 ∷ 0x2e ∷ 0x30 ∷ 0x31 ∷ 0x30 ∷ 0x2c ∷ 0x31 ∷ 0x39 ∷ 0x39 ∷ 0x38 ∷ 0x2f
    ∷ 0x30 ∷ 0x39 ∷ 0x2f ∷ 0x32 ∷ 0x38 ∷ 0x2c ∷ 0x33 ∷ 0x31 ∷ 0x35 ∷ 0x2d ∷ 0x36 ∷ 0x32 ∷ 0x31
    ∷ 0x31 ∷ 0x2d ∷ 0x41 ∷ 0x42 ∷ 0x20 ∷ 0x20 ∷ 0x20 ∷ 0x2c ∷ 0x41 ∷ 0x6e ∷ 0x61 ∷ 0x6c ∷ 0x6f
    ∷ 0x67 ∷ 0x20 ∷ 0x4d ∷ 0x6f ∷ 0x64 ∷ 0x75 ∷ 0x6c ∷ 0x65 ∷ 0x20 ∷ 0x3a ∷ 0x20 ∷ 0x54 ∷ 0x68
    ∷ 0x65 ∷ 0x20 ∷ 0x34 ∷ 0x74 ∷ 0x68 ∷ 0x20 ∷ 0x45 ∷ 0x64 ∷ 0x69 ∷ 0x74 ∷ 0x69 ∷ 0x6f ∷ 0x6e
    ∷ 0x2e ∷ 0x35 ∷ 0x2f ∷ 0x38 ∷ 0x20 ∷ 0x20 ∷ 0x2b ∷ 0x44 ∷ 0x46 ∷ []

abbrev pub keyboard_ident : List ℕ
keyboard_ident =
    0x00 ∷ 0x00 ∷ 0x00 ∷ 0x40 ∷ 0x02 ∷ 0x05 ∷ 0x00 ∷ 0x80 ∷ 0x00 ∷ 0x00 ∷ 0x00 ∷ 0x00 ∷ 0x00 ∷ 0x00
    ∷ 0x00 ∷ 0x00 ∷ 0x01 ∷ 0x00 ∷ 0x4b ∷ 0x65 ∷ 0x79 ∷ 0x62 ∷ 0x6f ∷ 0x61 ∷ 0x72 ∷ 0x64 ∷ 0x20
    ∷ 0x20 ∷ 0x20 ∷ 0x20 ∷ 0x20 ∷ 0x20 ∷ 0x20 ∷ 0x20 ∷ 0x20 ∷ 0x20 ∷ 0x20 ∷ 0x20 ∷ 0x20 ∷ 0x20
    ∷ 0x20 ∷ 0x20 ∷ 0x20 ∷ 0x20 ∷ 0x20 ∷ 0x20 ∷ 0x20 ∷ 0x20 ∷ 0x50 ∷ 0x72 ∷ 0x6f ∷ 0x64 ∷ 0x75
    ∷ 0x63 ∷ 0x65 ∷ 0x64 ∷ 0x20 ∷ 0x42 ∷ 0x79 ∷ 0x20 ∷ 0x6f ∷ 0x72 ∷ 0x20 ∷ 0x55 ∷ 0x6e ∷ 0x64
    ∷ 0x65 ∷ 0x72 ∷ 0x20 ∷ 0x4c ∷ 0x69 ∷ 0x63 ∷ 0x65 ∷ 0x6e ∷ 0x73 ∷ 0x65 ∷ 0x20 ∷ 0x46 ∷ 0x72
    ∷ 0x6f ∷ 0x6d ∷ 0x20 ∷ 0x53 ∷ 0x45 ∷ 0x47 ∷ 0x41 ∷ 0x20 ∷ 0x45 ∷ 0x4e ∷ 0x54 ∷ 0x45 ∷ 0x52
    ∷ 0x50 ∷ 0x52 ∷ 0x49 ∷ 0x53 ∷ 0x45 ∷ 0x53 ∷ 0x2c ∷ 0x4c ∷ 0x54 ∷ 0x44 ∷ 0x2e ∷ 0x20 ∷ 0x20
    ∷ 0x20 ∷ 0x20 ∷ 0x20 ∷ 0x2c ∷ 0x01 ∷ 0x90 ∷ 0x01 ∷ 0x56 ∷ 0x65 ∷ 0x72 ∷ 0x73 ∷ 0x69 ∷ 0x6f
    ∷ 0x6e ∷ 0x20 ∷ 0x31 ∷ 0x2e ∷ 0x30 ∷ 0x31 ∷ 0x30 ∷ 0x2c ∷ 0x31 ∷ 0x39 ∷ 0x39 ∷ 0x39 ∷ 0x2f
    ∷ 0x30 ∷ 0x34 ∷ 0x2f ∷ 0x32 ∷ 0x37 ∷ 0x2c ∷ 0x33 ∷ 0x31 ∷ 0x35 ∷ 0x2d ∷ 0x36 ∷ 0x32 ∷ 0x31
    ∷ 0x31 ∷ 0x2d ∷ 0x41 ∷ 0x4d ∷ 0x20 ∷ 0x20 ∷ 0x20 ∷ 0x2c ∷ 0x4b ∷ 0x65 ∷ 0x79 ∷ 0x20 ∷ 0x53
    ∷ 0x63 ∷ 0x61 ∷ 0x6e ∷ 0x20 ∷ 0x4d ∷ 0x6f ∷ 0x64 ∷ 0x75 ∷ 0x6c ∷ 0x65 ∷ 0x20 ∷ 0x3a ∷ 0x20
    ∷ 0x54 ∷ 0x68 ∷ 0x65 ∷ 0x20 ∷ 0x32 ∷ 0x6e ∷ 0x64 ∷ 0x20 ∷ 0x45 ∷ 0x64 ∷ 0x69 ∷ 0x74 ∷ 0x69
    ∷ 0x6f ∷ 0x6e ∷ 0x2e ∷ 0x20 ∷ 0x30 ∷ 0x34 ∷ 0x2f ∷ 0x32 ∷ 0x35 ∷ []

abbrev pub vmu_ident : List ℕ
vmu_ident =
    0x00 ∷ 0x00 ∷ 0x00 ∷ 0x0e ∷ 0x7e ∷ 0x7e ∷ 0x3f ∷ 0x40 ∷ 0x00 ∷ 0x05 ∷ 0x10 ∷ 0x00 ∷ 0x00 ∷ 0x0f
    ∷ 0x41 ∷ 0x00 ∷ 0xff ∷ 0x00 ∷ 0x56 ∷ 0x69 ∷ 0x73 ∷ 0x75 ∷ 0x61 ∷ 0x6c ∷ 0x20 ∷ 0x4d ∷ 0x65
    ∷ 0x6d ∷ 0x6f ∷ 0x72 ∷ 0x79 ∷ 0x20 ∷ 0x20 ∷ 0x20 ∷ 0x20 ∷ 0x20 ∷ 0x20 ∷ 0x20 ∷ 0x20 ∷ 0x20
    ∷ 0x20 ∷ 0x20 ∷ 0x20 ∷ 0x20 ∷ 0x20 ∷ 0x20 ∷ 0x20 ∷ 0x20 ∷ 0x50 ∷ 0x72 ∷ 0x6f ∷ 0x64 ∷ 0x75
    ∷ 0x63 ∷ 0x65 ∷ 0x64 ∷ 0x20 ∷ 0x42 ∷ 0x79 ∷ 0x20 ∷ 0x6f ∷ 0x72 ∷ 0x20 ∷ 0x55 ∷ 0x6e ∷ 0x64
    ∷ 0x65 ∷ 0x72 ∷ 0x20 ∷ 0x4c ∷ 0x69 ∷ 0x63 ∷ 0x65 ∷ 0x6e ∷ 0x73 ∷ 0x65 ∷ 0x20 ∷ 0x46 ∷ 0x72
    ∷ 0x6f ∷ 0x6d ∷ 0x20 ∷ 0x53 ∷ 0x45 ∷ 0x47 ∷ 0x41 ∷ 0x20 ∷ 0x45 ∷ 0x4e ∷ 0x54 ∷ 0x45 ∷ 0x52
    ∷ 0x50 ∷ 0x52 ∷ 0x49 ∷ 0x53 ∷ 0x45 ∷ 0x53 ∷ 0x2c ∷ 0x4c ∷ 0x54 ∷ 0x44 ∷ 0x2e ∷ 0x20 ∷ 0x20
    ∷ 0x20 ∷ 0x20 ∷ 0x20 ∷ 0x7c ∷ 0x00 ∷ 0x82 ∷ 0x00 ∷ 0x56 ∷ 0x65 ∷ 0x72 ∷ 0x73 ∷ 0x69 ∷ 0x6f
    ∷ 0x6e ∷ 0x20 ∷ 0x31 ∷ 0x2e ∷ 0x30 ∷ 0x30 ∷ 0x35 ∷ 0x2c ∷ 0x31 ∷ 0x39 ∷ 0x39 ∷ 0x39 ∷ 0x2f
    ∷ 0x30 ∷ 0x34 ∷ 0x2f ∷ 0x31 ∷ 0x35 ∷ 0x2c ∷ 0x33 ∷ 0x31 ∷ 0x35 ∷ 0x2d ∷ 0x36 ∷ 0x32 ∷ 0x30
    ∷ 0x38 ∷ 0x2d ∷ 0x30 ∷ 0x33 ∷ 0x2c ∷ 0x53 ∷ 0x45 ∷ 0x47 ∷ 0x41 ∷ 0x20 ∷ 0x56 ∷ 0x69 ∷ 0x73
    ∷ 0x75 ∷ 0x61 ∷ 0x6c ∷ 0x20 ∷ 0x4d ∷ 0x65 ∷ 0x6d ∷ 0x6f ∷ 0x72 ∷ 0x79 ∷ 0x20 ∷ 0x53 ∷ 0x79
    ∷ 0x73 ∷ 0x74 ∷ 0x65 ∷ 0x6d ∷ 0x20 ∷ 0x42 ∷ 0x49 ∷ 0x4f ∷ 0x53 ∷ 0x20 ∷ 0x50 ∷ 0x72 ∷ 0x6f
    ∷ 0x64 ∷ 0x75 ∷ 0x63 ∷ 0x65 ∷ 0x64 ∷ 0x20 ∷ 0x62 ∷ 0x79 ∷ 0x20 ∷ []
