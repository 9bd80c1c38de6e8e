-- ===== src/Benchmarks.antt =====
-- The records of frontend/src/features/benchmark/types/dtos.ts, over a type of numbers. The pages
-- guard against a benchmark without its parts, so those are optional here.
pub mod Filters
pub mod Options
pub mod Listing
pub mod Format
pub mod Creating
use build_a_computer.Base.{Bool, Option, List}
use build_a_computer.Base.Strings.{JsString}

pub record CpuResponseDto (N : Type 0) : Type 0 where
  pub id : JsString
  pub brand : JsString
  pub gen : JsString
  pub family : JsString
  pub series : JsString
  pub cores : N
  pub threads : N
  pub base_clock : N
  pub max_clock : N
  pub cache : N
  pub socket : JsString
  pub graphics : Bool
  pub oc : Bool
  pub recommended_power : N
  pub avg_price : N
  pub release_date : JsString
  pub img : Option (List N)
  pub created_at : JsString
  pub updated_at : Option JsString

pub record GpuResponseDto (N : Type 0) : Type 0 where
  pub id : JsString
  pub brand : JsString
  pub family : JsString
  pub series : JsString
  pub memory_amount : N
  pub memory_gen : JsString
  pub cores : N
  pub pci_express : N
  pub recommended_power : N
  pub avg_price : N
  pub release_date : JsString
  pub img : Option (List N)
  pub created_at : JsString
  pub updated_at : Option JsString

pub record RamResponseDto (N : Type 0) : Type 0 where
  pub id : JsString
  pub brand : JsString
  pub ddr : JsString
  pub memory_amount : N
  pub avg_price : N
  pub frequency_mhz : N
  pub series : JsString
  pub img : Option (List N)
  pub created_at : JsString
  pub updated_at : Option JsString

pub record GameResponseDto (N : Type 0) : Type 0 where
  pub id : JsString
  pub name : JsString
  pub img : Option (List N)
  pub necessary_disk : N
  pub created_at : JsString
  pub updated_at : Option JsString

pub record BenchmarkResponseDto (N : Type 0) : Type 0 where
  pub id : JsString
  pub title : JsString
  pub resolution : N
  pub graphics_quality : JsString
  pub cpu : Option (CpuResponseDto N)
  pub gpu : Option (GpuResponseDto N)
  pub ram : Option (RamResponseDto N)
  pub avg_fps : N
  pub min_fps : N
  pub max_fps : N
  pub game_id : JsString
  pub user_id : JsString
  pub score : Option N
  pub created_at : JsString
  pub updated_at : Option JsString
