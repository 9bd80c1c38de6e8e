-- ===== src/Catalogue/Processors.antt =====
-- The processors of frontend/src/utils/benchmarks.ts.
use build_a_computer.Base.{true, false, List, [], ◌∷◌, ◌++◌}
use build_a_computer.Base.Strings.{JsString, codes}
use build_a_computer.Catalogue.{Cpu}

abbrev pub first_cpus : List (JsString × Cpu)
first_cpus =
    (
      codes "cpu-1",
      record {
        id = codes "cpu-1";
        brand = codes "Intel";
        gen = codes "13th";
        family = codes "Core i9";
        series = codes "13900K";
        cores = 24;
        threads = 32;
        base_clock = record { digits = 30; places = 1 };
        max_clock = record { digits = 58; places = 1 };
        cache = 36;
        socket = codes "LGA1700";
        graphics = true;
        oc = true;
        recommended_power = 125;
        avg_price = 549;
      },
    )
    ∷ (
      codes "cpu-2",
      record {
        id = codes "cpu-2";
        brand = codes "AMD";
        gen = codes "Ryzen 7000";
        family = codes "Ryzen 9";
        series = codes "7950X";
        cores = 16;
        threads = 32;
        base_clock = record { digits = 45; places = 1 };
        max_clock = record { digits = 57; places = 1 };
        cache = 64;
        socket = codes "AM5";
        graphics = false;
        oc = true;
        recommended_power = 170;
        avg_price = 699;
      },
    )
    ∷ (
      codes "cpu-3",
      record {
        id = codes "cpu-3";
        brand = codes "Intel";
        gen = codes "13th";
        family = codes "Core i5";
        series = codes "13600K";
        cores = 14;
        threads = 20;
        base_clock = record { digits = 35; places = 1 };
        max_clock = record { digits = 51; places = 1 };
        cache = 24;
        socket = codes "LGA1700";
        graphics = true;
        oc = true;
        recommended_power = 125;
        avg_price = 319;
      },
    )
    ∷ (
      codes "cpu-4",
      record {
        id = codes "cpu-4";
        brand = codes "AMD";
        gen = codes "Ryzen 7000";
        family = codes "Ryzen 5";
        series = codes "7600X";
        cores = 6;
        threads = 12;
        base_clock = record { digits = 47; places = 1 };
        max_clock = record { digits = 53; places = 1 };
        cache = 32;
        socket = codes "AM5";
        graphics = false;
        oc = true;
        recommended_power = 105;
        avg_price = 249;
      },
    )
    ∷ (
      codes "cpu-5",
      record {
        id = codes "cpu-5";
        brand = codes "Intel";
        gen = codes "12th";
        family = codes "Core i3";
        series = codes "12100F";
        cores = 4;
        threads = 8;
        base_clock = record { digits = 33; places = 1 };
        max_clock = record { digits = 43; places = 1 };
        cache = 12;
        socket = codes "LGA1700";
        graphics = false;
        oc = false;
        recommended_power = 58;
        avg_price = 109;
      },
    )
    ∷ (
      codes "cpu-6",
      record {
        id = codes "cpu-6";
        brand = codes "Intel";
        gen = codes "10th";
        family = codes "Core i5";
        series = codes "10400F";
        cores = 6;
        threads = 12;
        base_clock = record { digits = 29; places = 1 };
        max_clock = record { digits = 43; places = 1 };
        cache = 12;
        socket = codes "LGA1200";
        graphics = false;
        oc = false;
        recommended_power = 65;
        avg_price = 129;
      },
    )
    ∷ (
      codes "cpu-7",
      record {
        id = codes "cpu-7";
        brand = codes "AMD";
        gen = codes "Ryzen 5000";
        family = codes "Ryzen 5";
        series = codes "5600";
        cores = 6;
        threads = 12;
        base_clock = record { digits = 35; places = 1 };
        max_clock = record { digits = 44; places = 1 };
        cache = 32;
        socket = codes "AM4";
        graphics = false;
        oc = false;
        recommended_power = 65;
        avg_price = 139;
      },
    )
    ∷ (
      codes "cpu-8",
      record {
        id = codes "cpu-8";
        brand = codes "AMD";
        gen = codes "Ryzen 5000";
        family = codes "Ryzen 5";
        series = codes "5600G";
        cores = 6;
        threads = 12;
        base_clock = record { digits = 39; places = 1 };
        max_clock = record { digits = 44; places = 1 };
        cache = 16;
        socket = codes "AM4";
        graphics = true;
        oc = true;
        recommended_power = 65;
        avg_price = 159;
      },
    )
    ∷ []

abbrev pub second_cpus : List (JsString × Cpu)
second_cpus =
    (
      codes "cpu-9",
      record {
        id = codes "cpu-9";
        brand = codes "Intel";
        gen = codes "12th";
        family = codes "Core i5";
        series = codes "12400F";
        cores = 6;
        threads = 12;
        base_clock = record { digits = 25; places = 1 };
        max_clock = record { digits = 44; places = 1 };
        cache = 18;
        socket = codes "LGA1700";
        graphics = false;
        oc = false;
        recommended_power = 65;
        avg_price = 179;
      },
    )
    ∷ (
      codes "cpu-10",
      record {
        id = codes "cpu-10";
        brand = codes "AMD";
        gen = codes "Ryzen 4000";
        family = codes "Ryzen 3";
        series = codes "4100";
        cores = 4;
        threads = 8;
        base_clock = record { digits = 38; places = 1 };
        max_clock = record { digits = 40; places = 1 };
        cache = 4;
        socket = codes "AM4";
        graphics = false;
        oc = false;
        recommended_power = 65;
        avg_price = 89;
      },
    )
    ∷ (
      codes "cpu-11",
      record {
        id = codes "cpu-11";
        brand = codes "Intel";
        gen = codes "11th";
        family = codes "Core i5";
        series = codes "11400F";
        cores = 6;
        threads = 12;
        base_clock = record { digits = 26; places = 1 };
        max_clock = record { digits = 44; places = 1 };
        cache = 12;
        socket = codes "LGA1200";
        graphics = false;
        oc = false;
        recommended_power = 65;
        avg_price = 159;
      },
    )
    ∷ (
      codes "cpu-12",
      record {
        id = codes "cpu-12";
        brand = codes "AMD";
        gen = codes "Ryzen 7000";
        family = codes "Ryzen 7";
        series = codes "7700X";
        cores = 8;
        threads = 16;
        base_clock = record { digits = 45; places = 1 };
        max_clock = record { digits = 54; places = 1 };
        cache = 40;
        socket = codes "AM5";
        graphics = false;
        oc = true;
        recommended_power = 105;
        avg_price = 379;
      },
    )
    ∷ (
      codes "cpu-13",
      record {
        id = codes "cpu-13";
        brand = codes "Intel";
        gen = codes "13th";
        family = codes "Core i7";
        series = codes "13700K";
        cores = 16;
        threads = 24;
        base_clock = record { digits = 34; places = 1 };
        max_clock = record { digits = 54; places = 1 };
        cache = 30;
        socket = codes "LGA1700";
        graphics = true;
        oc = true;
        recommended_power = 125;
        avg_price = 419;
      },
    )
    ∷ (
      codes "cpu-14",
      record {
        id = codes "cpu-14";
        brand = codes "AMD";
        gen = codes "Ryzen 5000";
        family = codes "Ryzen 7";
        series = codes "5700X";
        cores = 8;
        threads = 16;
        base_clock = record { digits = 34; places = 1 };
        max_clock = record { digits = 46; places = 1 };
        cache = 32;
        socket = codes "AM4";
        graphics = false;
        oc = true;
        recommended_power = 65;
        avg_price = 199;
      },
    )
    ∷ (
      codes "cpu-15",
      record {
        id = codes "cpu-15";
        brand = codes "Intel";
        gen = codes "13th";
        family = codes "Core i3";
        series = codes "13100F";
        cores = 4;
        threads = 8;
        base_clock = record { digits = 34; places = 1 };
        max_clock = record { digits = 45; places = 1 };
        cache = 12;
        socket = codes "LGA1700";
        graphics = false;
        oc = false;
        recommended_power = 58;
        avg_price = 99;
      },
    )
    ∷ (
      codes "cpu-16",
      record {
        id = codes "cpu-16";
        brand = codes "AMD";
        gen = codes "Ryzen 3000";
        family = codes "Ryzen 5";
        series = codes "3600";
        cores = 6;
        threads = 12;
        base_clock = record { digits = 36; places = 1 };
        max_clock = record { digits = 42; places = 1 };
        cache = 32;
        socket = codes "AM4";
        graphics = false;
        oc = true;
        recommended_power = 65;
        avg_price = 119;
      },
    )
    ∷ []

abbrev pub cpus : List (JsString × Cpu)
cpus = first_cpus ++ second_cpus
