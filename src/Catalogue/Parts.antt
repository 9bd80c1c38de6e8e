-- ===== src/Catalogue/Parts.antt =====
-- The graphics cards, the memories and the games of frontend/src/utils/benchmarks.ts.
use build_a_computer.Base.{List, [], ◌∷◌}
use build_a_computer.Base.Strings.{JsString, codes}
use build_a_computer.Catalogue.{Gpu, RamMemory, Game}

abbrev pub gpus : List (JsString × Gpu)
gpus =
    (
      codes "gpu-1",
      record {
        id = codes "gpu-1";
        brand = codes "NVIDIA";
        family = codes "GeForce RTX";
        series = codes "4090";
        memory_amount = 24;
        memory_gen = codes "GDDR6X";
        cores = 16384;
        pci_express = 4;
        recommended_power = 450;
        avg_price = 1599;
      },
    )
    ∷ (
      codes "gpu-2",
      record {
        id = codes "gpu-2";
        brand = codes "AMD";
        family = codes "Radeon RX";
        series = codes "7900 XTX";
        memory_amount = 24;
        memory_gen = codes "GDDR6";
        cores = 6144;
        pci_express = 4;
        recommended_power = 355;
        avg_price = 999;
      },
    )
    ∷ (
      codes "gpu-3",
      record {
        id = codes "gpu-3";
        brand = codes "NVIDIA";
        family = codes "GeForce RTX";
        series = codes "4070 Ti";
        memory_amount = 12;
        memory_gen = codes "GDDR6X";
        cores = 7680;
        pci_express = 4;
        recommended_power = 285;
        avg_price = 799;
      },
    )
    ∷ (
      codes "gpu-4",
      record {
        id = codes "gpu-4";
        brand = codes "AMD";
        family = codes "Radeon RX";
        series = codes "6800 XT";
        memory_amount = 16;
        memory_gen = codes "GDDR6";
        cores = 4608;
        pci_express = 4;
        recommended_power = 300;
        avg_price = 549;
      },
    )
    ∷ []

abbrev pub rams : List (JsString × RamMemory)
rams =
    (
      codes "ram-1",
      record {
        id = codes "ram-1";
        brand = codes "Corsair";
        ddr = codes "DDR5";
        memory_amount = 32;
        avg_price = 129;
        frequency_mhz = 6000;
        series = codes "Vengeance";
      },
    )
    ∷ (
      codes "ram-2",
      record {
        id = codes "ram-2";
        brand = codes "G.Skill";
        ddr = codes "DDR5";
        memory_amount = 32;
        avg_price = 119;
        frequency_mhz = 5600;
        series = codes "Trident Z5";
      },
    )
    ∷ (
      codes "ram-3",
      record {
        id = codes "ram-3";
        brand = codes "Corsair";
        ddr = codes "DDR4";
        memory_amount = 16;
        avg_price = 59;
        frequency_mhz = 3600;
        series = codes "Vengeance LPX";
      },
    )
    ∷ (
      codes "ram-4",
      record {
        id = codes "ram-4";
        brand = codes "Kingston";
        ddr = codes "DDR4";
        memory_amount = 32;
        avg_price = 79;
        frequency_mhz = 3200;
        series = codes "Fury Beast";
      },
    )
    ∷ []

abbrev pub games : List (JsString × Game)
games =
    (
      codes "game-1",
      record { id = codes "game-1"; name = codes "Elden Ring"; banner = codes "elden-ring" },
    )
    ∷ (
      codes "game-2",
      record {
        id = codes "game-2";
        name = codes "Cyberpunk 2077";
        banner = codes "cyberpunk-2077";
      },
    )
    ∷ (codes "game-3", record { id = codes "game-3"; name = codes "GTA V"; banner = codes "gta-v" })
    ∷ (
      codes "game-4",
      record {
        id = codes "game-4";
        name = codes "Red Dead Redemption 2";
        banner = codes "red-dead-redemption-2";
      },
    )
    ∷ (
      codes "game-5",
      record { id = codes "game-5"; name = codes "Fortnite"; banner = codes "fortnite" },
    )
    ∷ []
