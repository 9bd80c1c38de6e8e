-- ===== src/Catalogue.antt =====
-- The sample records of frontend/src/utils/benchmarks.ts. A map from ids is a list of pairs in the order
-- of the source, and a number is written as its decimal digits and their places after the point.
pub mod Processors
pub mod Parts
pub mod Samples
pub mod Laws
use build_a_computer.Base.{ℕ, Bool, Option}
use build_a_computer.Base.Strings.{JsString}

-- `digits / 10 ** places`.
pub record Decimal : Type 0 where
  pub digits : ℕ
  pub places : ℕ

pub record Cpu : Type 0 where
  pub id : JsString
  pub brand : JsString
  pub gen : JsString
  pub family : JsString
  pub series : JsString
  pub cores : ℕ
  pub threads : ℕ
  pub base_clock : Decimal
  pub max_clock : Decimal
  pub cache : ℕ
  pub socket : JsString
  pub graphics : Bool
  pub oc : Bool
  pub recommended_power : ℕ
  pub avg_price : ℕ

pub record Gpu : Type 0 where
  pub id : JsString
  pub brand : JsString
  pub family : JsString
  pub series : JsString
  pub memory_amount : ℕ
  pub memory_gen : JsString
  pub cores : ℕ
  pub pci_express : ℕ
  pub recommended_power : ℕ
  pub avg_price : ℕ

pub record RamMemory : Type 0 where
  pub id : JsString
  pub brand : JsString
  pub ddr : JsString
  pub memory_amount : ℕ
  pub avg_price : ℕ
  pub frequency_mhz : ℕ
  pub series : JsString

pub record Game : Type 0 where
  pub id : JsString
  pub name : JsString
  pub banner : JsString

pub record Benchmark : Type 0 where
  pub id : JsString
  pub title : JsString
  pub resolution : ℕ
  pub graphics_quality : JsString
  pub cpu_id : JsString
  pub gpu_id : JsString
  pub ram_id : JsString
  pub avg_fps : ℕ
  pub min_fps : ℕ
  pub max_fps : ℕ
  pub game_id : JsString
  pub user_id : JsString
  pub score : Option Decimal
