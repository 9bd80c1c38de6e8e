-- ===== src/BuildPc/Dtos.antt =====
-- The builds that a recommendation answers with: frontend/src/features/build-pc/types, and what a card of
-- components/recommendation-results/pc-card.tsx shows of them. `to_locale_string` is the method of a
-- number without fraction digits.
use build_a_computer.Base.{ℕ, Bool, Option, List, [], ◌∷◌, ◌++◌}
use build_a_computer.Base.Strings.{JsString, codes}
use build_a_computer.Base.Number.{JsNumber}

pub record CpuDto (N : Type 0) : Type 0 where
  pub id : JsString
  pub brand : JsString
  pub gen : JsString
  pub family : JsString
  pub series : JsString
  pub cores : N
  pub threads : N
  pub base_clock : N
  pub max_clock : N
  pub cache : N
  pub socket : JsString
  pub graphics : Bool
  pub oc : Bool
  pub recommended_power : N
  pub avg_price : N
  pub release_date : JsString
  pub img : Option (List ℕ)
  pub created_at : JsString
  pub updated_at : Option JsString

pub record GpuDto (N : Type 0) : Type 0 where
  pub id : JsString
  pub brand : JsString
  pub family : JsString
  pub series : JsString
  pub memory_amount : N
  pub memory_gen : JsString
  pub cores : N
  pub pci_express : N
  pub recommended_power : N
  pub avg_price : N
  pub release_date : JsString
  pub img : Option (List ℕ)
  pub created_at : JsString
  pub updated_at : Option JsString

pub record MotherBoardDto (N : Type 0) : Type 0 where
  pub id : JsString
  pub brand : JsString
  pub series : JsString
  pub socket : JsString
  pub ddr : JsString
  pub memory_slots : N
  pub max_ram : N
  pub max_ram_frequency_mhz : N
  pub m2_slots : N
  pub pci_express_x16 : N
  pub vrm : N
  pub avg_price : N
  pub score : N
  pub img : Option (List ℕ)
  pub created_at : JsString
  pub updated_at : Option JsString

pub record PowerSourceDto (N : Type 0) : Type 0 where
  pub id : JsString
  pub brand : JsString
  pub series : JsString
  pub power_amount : N
  pub ranking : JsString
  pub score : N
  pub eighty_plus_cert : Bool
  pub avg_price : N
  pub img : Option (List ℕ)
  pub created_at : JsString
  pub updated_at : Option JsString

pub record RamMemoryDto (N : Type 0) : Type 0 where
  pub id : JsString
  pub brand : JsString
  pub ddr : JsString
  pub memory_amount : N
  pub avg_price : N
  pub frequency_mhz : N
  pub series : JsString
  pub img : Option (List ℕ)
  pub created_at : JsString
  pub updated_at : Option JsString

pub record SsdDto (N : Type 0) : Type 0 where
  pub id : JsString
  pub brand : JsString
  pub series : JsString
  pub amount : N
  pub type : JsString
  pub reading : N
  pub writing : N
  pub avg_price : N
  pub score : N
  pub img : Option (List ℕ)
  pub created_at : JsString
  pub updated_at : Option JsString

pub record PcResponseDto (N : Type 0) : Type 0 where
  pub cpu : CpuDto N
  pub gpu : GpuDto N
  pub ram_memory : RamMemoryDto N
  pub mother_board : MotherBoardDto N
  pub power_source : PowerSourceDto N
  pub ssd : SsdDto N

pub record SpecRow : Type 0 where
  pub label : JsString
  pub value : JsString
  pub price : JsString

module _ {N : Type 0} ⦃d : JsNumber N⦄ (to_locale_string : N → JsString) where
  unfoldable pub total_price : PcResponseDto N → N
  total_price pc =
      d.add
        (d.add
          (d.add (d.add (d.add pc.cpu.avg_price pc.gpu.avg_price) pc.ram_memory.avg_price)
            pc.mother_board.avg_price)
          pc.power_source.avg_price)
        pc.ssd.avg_price

  -- `Build #…`, the total, and the rows of the card.
  abbrev pub title : ℕ → JsString
  title index = codes "Build #" ++ d.to_string (d.add (d.of_ℕ index) (d.of_ℕ 1))

  abbrev pub spec_row : JsString → JsString → N → SpecRow
  spec_row label value price = record {
    label = label;
    value = value;
    price = codes "$" ++ to_locale_string price;
  }

  unfoldable pub spec_rows : PcResponseDto N → List SpecRow
  spec_rows pc =
      spec_row (codes "CPU") (pc.cpu.brand ++ (codes " " ++ pc.cpu.series)) pc.cpu.avg_price
      ∷ spec_row (codes "GPU") (pc.gpu.brand ++ (codes " " ++ pc.gpu.series)) pc.gpu.avg_price
      ∷ spec_row (codes "Motherboard")
          (pc.mother_board.brand ++ (codes " " ++ pc.mother_board.series)) pc.mother_board.avg_price
      ∷ spec_row (codes "RAM")
          (pc.ram_memory.brand
            ++ (codes " "
                ++ (d.to_string pc.ram_memory.memory_amount ++ (codes "GB " ++ pc.ram_memory.ddr))))
          pc.ram_memory.avg_price
      ∷ spec_row (codes "Storage")
          (pc.ssd.brand
            ++ (codes " " ++ (d.to_string pc.ssd.amount ++ (codes "GB " ++ pc.ssd.type))))
          pc.ssd.avg_price
      ∷ spec_row (codes "Power Supply")
          (pc.power_source.brand
            ++ (codes " " ++ (d.to_string pc.power_source.power_amount ++ codes "W")))
          pc.power_source.avg_price
      ∷ []
