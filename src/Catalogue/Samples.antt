-- ===== src/Catalogue/Samples.antt =====
-- The benchmarks of frontend/src/utils/benchmarks.ts.
use build_a_computer.Base.{some, List, [], ◌∷◌, ◌++◌}
use build_a_computer.Base.Strings.{codes}
use build_a_computer.Catalogue.{Benchmark}

abbrev pub first_benchmarks : List Benchmark
first_benchmarks =
    (record {
      id = codes "b-1";
      title = codes "RTX 4090 — Elden Ring 4K Ultra";
      resolution = 2160;
      graphics_quality = codes "Ultra";
      cpu_id = codes "cpu-1";
      gpu_id = codes "gpu-1";
      ram_id = codes "ram-1";
      avg_fps = 142;
      min_fps = 118;
      max_fps = 167;
      game_id = codes "game-1";
      user_id = codes "u-1";
      score = some (record { digits = 94; places = 1 });
    })
    ∷ (record {
      id = codes "b-2";
      title = codes "RX 7900 XTX — Cyberpunk 2077 4K Ultra";
      resolution = 2160;
      graphics_quality = codes "Ultra";
      cpu_id = codes "cpu-2";
      gpu_id = codes "gpu-2";
      ram_id = codes "ram-2";
      avg_fps = 89;
      min_fps = 64;
      max_fps = 114;
      game_id = codes "game-2";
      user_id = codes "u-2";
      score = some (record { digits = 81; places = 1 });
    })
    ∷ (record {
      id = codes "b-3";
      title = codes "RTX 4070 Ti — GTA V 1440p High";
      resolution = 1440;
      graphics_quality = codes "High";
      cpu_id = codes "cpu-3";
      gpu_id = codes "gpu-3";
      ram_id = codes "ram-3";
      avg_fps = 178;
      min_fps = 152;
      max_fps = 211;
      game_id = codes "game-3";
      user_id = codes "u-3";
      score = some (record { digits = 90; places = 1 });
    })
    ∷ (record {
      id = codes "b-4";
      title = codes "RX 6800 XT — RDR2 1440p High";
      resolution = 1440;
      graphics_quality = codes "High";
      cpu_id = codes "cpu-4";
      gpu_id = codes "gpu-4";
      ram_id = codes "ram-4";
      avg_fps = 97;
      min_fps = 71;
      max_fps = 128;
      game_id = codes "game-4";
      user_id = codes "u-1";
      score = some (record { digits = 78; places = 1 });
    })
    ∷ (record {
      id = codes "b-5";
      title = codes "RTX 4090 — Cyberpunk 2077 4K Ultra";
      resolution = 2160;
      graphics_quality = codes "Ultra";
      cpu_id = codes "cpu-1";
      gpu_id = codes "gpu-1";
      ram_id = codes "ram-1";
      avg_fps = 107;
      min_fps = 88;
      max_fps = 131;
      game_id = codes "game-2";
      user_id = codes "u-2";
      score = some (record { digits = 92; places = 1 });
    })
    ∷ (record {
      id = codes "b-6";
      title = codes "RTX 4070 Ti — Elden Ring 1080p Ultra";
      resolution = 1080;
      graphics_quality = codes "Ultra";
      cpu_id = codes "cpu-3";
      gpu_id = codes "gpu-3";
      ram_id = codes "ram-2";
      avg_fps = 214;
      min_fps = 187;
      max_fps = 248;
      game_id = codes "game-1";
      user_id = codes "u-3";
      score = some (record { digits = 91; places = 1 });
    })
    ∷ (record {
      id = codes "b-7";
      title = codes "RX 7900 XTX — GTA V 4K High";
      resolution = 2160;
      graphics_quality = codes "High";
      cpu_id = codes "cpu-2";
      gpu_id = codes "gpu-2";
      ram_id = codes "ram-1";
      avg_fps = 131;
      min_fps = 108;
      max_fps = 159;
      game_id = codes "game-3";
      user_id = codes "u-4";
      score = some (record { digits = 87; places = 1 });
    })
    ∷ []

abbrev pub second_benchmarks : List Benchmark
second_benchmarks =
    (record {
      id = codes "b-8";
      title = codes "RX 6800 XT — Fortnite 1080p Medium";
      resolution = 1080;
      graphics_quality = codes "Medium";
      cpu_id = codes "cpu-4";
      gpu_id = codes "gpu-4";
      ram_id = codes "ram-3";
      avg_fps = 241;
      min_fps = 198;
      max_fps = 289;
      game_id = codes "game-5";
      user_id = codes "u-1";
      score = some (record { digits = 83; places = 1 });
    })
    ∷ (record {
      id = codes "b-9";
      title = codes "RTX 4090 — RDR2 4K Ultra";
      resolution = 2160;
      graphics_quality = codes "Ultra";
      cpu_id = codes "cpu-1";
      gpu_id = codes "gpu-1";
      ram_id = codes "ram-2";
      avg_fps = 25;
      min_fps = 43;
      max_fps = 64;
      game_id = codes "game-4";
      user_id = codes "u-3";
      score = some (record { digits = 93; places = 1 });
    })
    ∷ (record {
      id = codes "b-10";
      title = codes "RX 7900 XTX — Fortnite 1440p High";
      resolution = 1440;
      graphics_quality = codes "High";
      cpu_id = codes "cpu-2";
      gpu_id = codes "gpu-2";
      ram_id = codes "ram-4";
      avg_fps = 298;
      min_fps = 244;
      max_fps = 341;
      game_id = codes "game-5";
      user_id = codes "u-2";
      score = some (record { digits = 89; places = 1 });
    })
    ∷ (record {
      id = codes "b-11";
      title = codes "RTX 4070 Ti — Cyberpunk 2077 1440p Ultra";
      resolution = 1440;
      graphics_quality = codes "Ultra";
      cpu_id = codes "cpu-3";
      gpu_id = codes "gpu-3";
      ram_id = codes "ram-1";
      avg_fps = 74;
      min_fps = 55;
      max_fps = 98;
      game_id = codes "game-2";
      user_id = codes "u-4";
      score = some (record { digits = 76; places = 1 });
    })
    ∷ (record {
      id = codes "b-12";
      title = codes "RX 6800 XT — Elden Ring 1440p High";
      resolution = 1440;
      graphics_quality = codes "High";
      cpu_id = codes "cpu-4";
      gpu_id = codes "gpu-4";
      ram_id = codes "ram-3";
      avg_fps = 118;
      min_fps = 93;
      max_fps = 147;
      game_id = codes "game-1";
      user_id = codes "u-1";
      score = some (record { digits = 80; places = 1 });
    })
    ∷ []

abbrev pub benchmarks : List Benchmark
benchmarks = first_benchmarks ++ second_benchmarks
