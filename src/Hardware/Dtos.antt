-- ===== src/Hardware/Dtos.antt =====
-- The object types of frontend/src/features/hardware/types/dtos.ts, as the properties that they ask for,
-- and `HardwareKind`.
use build_a_computer.Base.{Bool, true, false, List, [], ◌∷◌}
use build_a_computer.Base.Strings.{JsString, codes}

pub data PropertyType : Type 0 where
  string_type number_type boolean_type bytes_type : PropertyType

-- A property with its type; an optional one may be absent or, as far as the type says so, `null`.
pub record Property : Type 0 where
  pub name : JsString
  pub type : PropertyType
  pub is_optional : Bool

abbrev pub ObjectType : Type 0
ObjectType = List Property

abbrev must : JsString → PropertyType → Property
must n t = record { name = n; type = t; is_optional = false }

abbrev may : JsString → PropertyType → Property
may n t = record { name = n; type = t; is_optional = true }

pub data HardwareKind : Type 0 where
  cpu gpu ram motherboard psu ssd : HardwareKind

abbrev pub motherboard_response_dto : ObjectType
motherboard_response_dto =
    must (codes "id") string_type
    ∷ must (codes "brand") string_type
    ∷ must (codes "series") string_type
    ∷ must (codes "socket") string_type
    ∷ must (codes "ddr") string_type
    ∷ must (codes "memory_slots") number_type
    ∷ must (codes "max_ram") number_type
    ∷ must (codes "max_ram_frequency_mhz") number_type
    ∷ must (codes "m2_slots") number_type
    ∷ must (codes "pci_express_x16") number_type
    ∷ must (codes "vrm") number_type
    ∷ must (codes "avg_price") number_type
    ∷ must (codes "score") number_type
    ∷ may (codes "img") bytes_type
    ∷ must (codes "created_at") string_type
    ∷ may (codes "updated_at") string_type
    ∷ []

abbrev pub psu_response_dto : ObjectType
psu_response_dto =
    must (codes "id") string_type
    ∷ must (codes "brand") string_type
    ∷ must (codes "series") string_type
    ∷ must (codes "power_amount") number_type
    ∷ must (codes "ranking") string_type
    ∷ must (codes "score") number_type
    ∷ must (codes "eighty_plus_cert") boolean_type
    ∷ must (codes "avg_price") number_type
    ∷ may (codes "img") bytes_type
    ∷ must (codes "created_at") string_type
    ∷ may (codes "updated_at") string_type
    ∷ []

abbrev pub ssd_response_dto : ObjectType
ssd_response_dto =
    must (codes "id") string_type
    ∷ must (codes "brand") string_type
    ∷ must (codes "series") string_type
    ∷ must (codes "amount") number_type
    ∷ must (codes "type") string_type
    ∷ must (codes "reading") number_type
    ∷ must (codes "writing") number_type
    ∷ must (codes "avg_price") number_type
    ∷ must (codes "score") number_type
    ∷ may (codes "img") bytes_type
    ∷ must (codes "created_at") string_type
    ∷ may (codes "updated_at") string_type
    ∷ []

abbrev pub create_cpu_request_dto : ObjectType
create_cpu_request_dto =
    must (codes "brand") string_type
    ∷ must (codes "gen") string_type
    ∷ must (codes "family") string_type
    ∷ must (codes "series") string_type
    ∷ must (codes "cores") number_type
    ∷ must (codes "threads") number_type
    ∷ must (codes "base_clock") number_type
    ∷ must (codes "max_clock") number_type
    ∷ must (codes "cache") number_type
    ∷ must (codes "socket") string_type
    ∷ must (codes "graphics") boolean_type
    ∷ must (codes "oc") boolean_type
    ∷ must (codes "recommended_power") number_type
    ∷ must (codes "avg_price") number_type
    ∷ must (codes "release_date") string_type
    ∷ []

abbrev pub create_gpu_request_dto : ObjectType
create_gpu_request_dto =
    must (codes "brand") string_type
    ∷ must (codes "family") string_type
    ∷ must (codes "series") string_type
    ∷ must (codes "memory_amount") number_type
    ∷ must (codes "memory_gen") string_type
    ∷ must (codes "cores") number_type
    ∷ must (codes "pci_express") number_type
    ∷ must (codes "recommended_power") number_type
    ∷ must (codes "avg_price") number_type
    ∷ must (codes "release_date") string_type
    ∷ []

abbrev pub create_ram_request_dto : ObjectType
create_ram_request_dto =
    must (codes "brand") string_type
    ∷ must (codes "ddr") string_type
    ∷ must (codes "memory_amount") number_type
    ∷ must (codes "avg_price") number_type
    ∷ must (codes "frequency_mhz") number_type
    ∷ must (codes "series") string_type
    ∷ []

abbrev pub create_motherboard_request_dto : ObjectType
create_motherboard_request_dto =
    must (codes "brand") string_type
    ∷ must (codes "series") string_type
    ∷ must (codes "socket") string_type
    ∷ must (codes "ddr") string_type
    ∷ must (codes "memory_slots") number_type
    ∷ must (codes "max_ram") number_type
    ∷ must (codes "max_ram_frequency_mhz") number_type
    ∷ must (codes "m2_slots") number_type
    ∷ must (codes "pci_express_x16") number_type
    ∷ must (codes "vrm") number_type
    ∷ must (codes "avg_price") number_type
    ∷ must (codes "score") number_type
    ∷ []

abbrev pub create_psu_request_dto : ObjectType
create_psu_request_dto =
    must (codes "brand") string_type
    ∷ must (codes "series") string_type
    ∷ must (codes "power_amount") number_type
    ∷ must (codes "ranking") string_type
    ∷ must (codes "score") number_type
    ∷ must (codes "eighty_plus_cert") boolean_type
    ∷ must (codes "avg_price") number_type
    ∷ []

abbrev pub create_ssd_request_dto : ObjectType
create_ssd_request_dto =
    must (codes "brand") string_type
    ∷ must (codes "series") string_type
    ∷ must (codes "amount") number_type
    ∷ must (codes "type") string_type
    ∷ must (codes "reading") number_type
    ∷ must (codes "writing") number_type
    ∷ must (codes "avg_price") number_type
    ∷ must (codes "score") number_type
    ∷ []

abbrev pub psu_rankings : List JsString
psu_rankings =
    codes "white"
    ∷ codes "bronze"
    ∷ codes "silver"
    ∷ codes "gold"
    ∷ codes "platinum"
    ∷ codes "titanium"
    ∷ []

abbrev pub ssd_types : List JsString
ssd_types = codes "SATA" ∷ codes "M2 SATA" ∷ codes "M2 NVMe" ∷ []

-- What a form of a kind sends.
abbrev pub request_type : HardwareKind → ObjectType
request_type cpu = create_cpu_request_dto
request_type gpu = create_gpu_request_dto
request_type ram = create_ram_request_dto
request_type motherboard = create_motherboard_request_dto
request_type psu = create_psu_request_dto
request_type ssd = create_ssd_request_dto
