-- ===== src/Hardware/Columns.antt =====
-- The columns of the hardware tables: frontend/src/features/hardware/config.ts. An item is the object
-- that the server sent. `print` is `String` of an array or an object, `to_locale` is `toLocaleString`.
use build_a_computer.Base.{true, false, Option, none, some, List, [], ◌∷◌, ◌++◌}
use build_a_computer.Base.Strings.{JsString, codes}
use build_a_computer.Base.Json.{Json, null, bool, num, str, Fields, property}
use build_a_computer.Base.Number.{JsNumber}
use build_a_computer.Hardware.Dtos.{HardwareKind, cpu, gpu, ram, motherboard, psu, ssd}
use mathlib.Core.Option

-- "·".
abbrev middle_dot : JsString
middle_dot = 183 ∷ []

-- `render` gives the text of a cell; `none` is the TypeError of a property of `undefined`.
pub record ColumnConfig (N : Type 0) : Type 0 where
  pub key : JsString
  pub label : JsString
  pub render : Fields N → Option JsString

abbrev column : {N : Type 0} → JsString → JsString → (Fields N → Option JsString) → ColumnConfig N
column k l r = record { key = k; label = l; render = r }

-- `String(value)`; `none` is `undefined`.
module _ {N : Type 0} (d : JsNumber N) (print : Json N → JsString) where
  abbrev pub string_of : Option (Json N) → JsString
  string_of none = codes "undefined"
  string_of (some null) = codes "null"
  string_of (some (bool true)) = codes "true"
  string_of (some (bool false)) = codes "false"
  string_of (some (num n)) = d.to_string n
  string_of (some (str s)) = s
  string_of (some v) = print v

module _ {N : Type 0} (d : JsNumber N) (print to_locale : Json N → JsString) where
  abbrev show : Fields N → JsString → JsString
  show item k = string_of d print (property k item)

  -- `item.k.toLocaleString()`.
  abbrev pub locale : Option (Json N) → Option JsString
  locale none = none
  locale (some null) = none
  locale (some v) = some (to_locale v)

  unfoldable pub money : Option (Json N) → Option JsString
  money v = Option.map (λ s. codes "$" ++ s) (locale v)

  unfoldable pub cpu_columns : List (ColumnConfig N)
  unfolding money
  cpu_columns =
      column (codes "brand") (codes "Brand") (λ i. some (show i (codes "brand")))
      ∷ column (codes "model") (codes "Model")
          (λ i. some (show i (codes "family") ++ (codes " " ++ show i (codes "series"))))
      ∷ column (codes "cores") (codes "Cores/Threads")
          (λ i. some (show i (codes "cores") ++ (codes "/" ++ show i (codes "threads"))))
      ∷ column (codes "clock") (codes "Clock") (λ i. some (
          show i (codes "base_clock")
          ++ (codes "-" ++ (show i (codes "max_clock") ++ codes " GHz"))))
      ∷ column (codes "socket") (codes "Socket") (λ i. some (show i (codes "socket")))
      ∷ column (codes "avg_price") (codes "Avg Price") (λ i. money (property (codes "avg_price") i))
      ∷ []

  unfoldable pub gpu_columns : List (ColumnConfig N)
  unfolding money
  gpu_columns =
      column (codes "brand") (codes "Brand") (λ i. some (show i (codes "brand")))
      ∷ column (codes "model") (codes "Model")
          (λ i. some (show i (codes "family") ++ (codes " " ++ show i (codes "series"))))
      ∷ column (codes "memory") (codes "Memory") (λ i.
        some (show i (codes "memory_amount") ++ (codes "GB " ++ show i (codes "memory_gen"))))
      ∷ column (codes "cores") (codes "Cores") (λ i. locale (property (codes "cores") i))
      ∷ column (codes "power") (codes "TDP")
          (λ i. some (show i (codes "recommended_power") ++ codes "W"))
      ∷ column (codes "avg_price") (codes "Avg Price") (λ i. money (property (codes "avg_price") i))
      ∷ []

  unfoldable pub ram_columns : List (ColumnConfig N)
  unfolding money
  ram_columns =
      column (codes "brand") (codes "Brand") (λ i. some (show i (codes "brand")))
      ∷ column (codes "series") (codes "Series") (λ i. some (show i (codes "series")))
      ∷ column (codes "capacity") (codes "Capacity")
          (λ i. some (show i (codes "memory_amount") ++ (codes "GB " ++ show i (codes "ddr"))))
      ∷ column (codes "frequency_mhz") (codes "Frequency")
          (λ i. some (show i (codes "frequency_mhz") ++ codes " MHz"))
      ∷ column (codes "avg_price") (codes "Avg Price") (λ i. money (property (codes "avg_price") i))
      ∷ []

  unfoldable pub motherboard_columns : List (ColumnConfig N)
  unfolding money
  motherboard_columns =
      column (codes "brand") (codes "Brand") (λ i. some (show i (codes "brand")))
      ∷ column (codes "series") (codes "Series") (λ i. some (show i (codes "series")))
      ∷ column (codes "socket") (codes "Socket") (λ i. some (show i (codes "socket")))
      ∷ column (codes "ram") (codes "RAM Support") (λ i. some (
          show i (codes "ddr")
          ++ (codes " "
              ++ (middle_dot
                  ++ (codes " "
                      ++ (show i (codes "memory_slots")
                          ++ (codes " slots "
                              ++ (middle_dot
                                  ++ (codes " up to "
                                      ++ (show i (codes "max_ram") ++ codes "GB"))))))))))
      ∷ column (codes "avg_price") (codes "Avg Price") (λ i. money (property (codes "avg_price") i))
      ∷ []

  unfoldable pub psu_columns : List (ColumnConfig N)
  unfolding money
  psu_columns =
      column (codes "brand") (codes "Brand") (λ i. some (show i (codes "brand")))
      ∷ column (codes "series") (codes "Series") (λ i. some (show i (codes "series")))
      ∷ column (codes "power_amount") (codes "Power")
          (λ i. some (show i (codes "power_amount") ++ codes "W"))
      ∷ column (codes "ranking") (codes "Ranking")
          (λ i. some (codes "80+ " ++ show i (codes "ranking")))
      ∷ column (codes "avg_price") (codes "Avg Price") (λ i. money (property (codes "avg_price") i))
      ∷ []

  unfoldable pub ssd_columns : List (ColumnConfig N)
  unfolding money
  ssd_columns =
      column (codes "brand") (codes "Brand") (λ i. some (show i (codes "brand")))
      ∷ column (codes "series") (codes "Series") (λ i. some (show i (codes "series")))
      ∷ column (codes "amount") (codes "Capacity")
          (λ i. some (show i (codes "amount") ++ codes "GB"))
      ∷ column (codes "type") (codes "Type") (λ i. some (show i (codes "type")))
      ∷ column (codes "speed") (codes "Read/Write") (λ i.
        some
          (show i (codes "reading") ++ (codes "/" ++ (show i (codes "writing") ++ codes " MB/s"))))
      ∷ column (codes "avg_price") (codes "Avg Price") (λ i. money (property (codes "avg_price") i))
      ∷ []

  unfoldable pub columns_of : HardwareKind → List (ColumnConfig N)
  unfolding cpu_columns gpu_columns ram_columns motherboard_columns psu_columns ssd_columns
  columns_of cpu = cpu_columns
  columns_of gpu = gpu_columns
  columns_of ram = ram_columns
  columns_of motherboard = motherboard_columns
  columns_of psu = psu_columns
  columns_of ssd = ssd_columns
