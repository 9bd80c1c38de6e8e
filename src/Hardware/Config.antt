-- ===== src/Hardware/Config.antt =====
-- The resources of frontend/src/features/hardware/config.ts, with the API objects of api/apiHardware.ts.
-- Their columns are in Hardware/Columns.
use build_a_computer.Base.{true, false, List, [], ◌∷◌}
use build_a_computer.Base.Strings.{JsString, codes}
use build_a_computer.Api.Endpoints.{HardwareResourceApi, create_hardware_resource_api}
use build_a_computer.Hardware.{FieldKind, text, number, integer, boolean, select, date, FieldConfig}
use build_a_computer.Hardware.Dtos.{
  HardwareKind, cpu, gpu, ram, motherboard, psu, ssd, psu_rankings, ssd_types,
}

abbrev required : JsString → JsString → FieldKind → FieldConfig
required n l k = record { name = n; label = l; kind = k; options = []; required = true }

abbrev choice : JsString → JsString → List JsString → FieldConfig
choice n l os = record { name = n; label = l; kind = select; options = os; required = true }

abbrev switch : JsString → JsString → FieldConfig
switch n l = record { name = n; label = l; kind = boolean; options = []; required = false }

abbrev pub cpu_fields : List FieldConfig
cpu_fields =
    required (codes "brand") (codes "Brand") text
    ∷ required (codes "gen") (codes "Generation") text
    ∷ required (codes "family") (codes "Family") text
    ∷ required (codes "series") (codes "Series") text
    ∷ required (codes "cores") (codes "Cores") integer
    ∷ required (codes "threads") (codes "Threads") integer
    ∷ required (codes "base_clock") (codes "Base Clock (GHz)") number
    ∷ required (codes "max_clock") (codes "Max Clock (GHz)") number
    ∷ required (codes "cache") (codes "Cache (MB)") integer
    ∷ required (codes "socket") (codes "Socket") text
    ∷ switch (codes "graphics") (codes "Integrated Graphics")
    ∷ switch (codes "oc") (codes "Overclockable")
    ∷ required (codes "recommended_power") (codes "Recommended Power (W)") integer
    ∷ required (codes "avg_price") (codes "Avg Price ($)") number
    ∷ required (codes "release_date") (codes "Release Date") date
    ∷ []

abbrev pub gpu_fields : List FieldConfig
gpu_fields =
    required (codes "brand") (codes "Brand") text
    ∷ required (codes "family") (codes "Family") text
    ∷ required (codes "series") (codes "Series") text
    ∷ required (codes "memory_amount") (codes "Memory (GB)") integer
    ∷ required (codes "memory_gen") (codes "Memory Generation") text
    ∷ required (codes "cores") (codes "Cores") integer
    ∷ required (codes "pci_express") (codes "PCIe Generation") integer
    ∷ required (codes "recommended_power") (codes "Recommended Power (W)") integer
    ∷ required (codes "avg_price") (codes "Avg Price ($)") number
    ∷ required (codes "release_date") (codes "Release Date") date
    ∷ []

abbrev pub ram_fields : List FieldConfig
ram_fields =
    required (codes "brand") (codes "Brand") text
    ∷ required (codes "series") (codes "Series") text
    ∷ required (codes "ddr") (codes "DDR Type") text
    ∷ required (codes "memory_amount") (codes "Capacity (GB)") integer
    ∷ required (codes "frequency_mhz") (codes "Frequency (MHz)") integer
    ∷ required (codes "avg_price") (codes "Avg Price ($)") number
    ∷ []

abbrev pub motherboard_fields : List FieldConfig
motherboard_fields =
    required (codes "brand") (codes "Brand") text
    ∷ required (codes "series") (codes "Series") text
    ∷ required (codes "socket") (codes "Socket") text
    ∷ required (codes "ddr") (codes "DDR Type") text
    ∷ required (codes "memory_slots") (codes "Memory Slots") integer
    ∷ required (codes "max_ram") (codes "Max RAM (GB)") integer
    ∷ required (codes "max_ram_frequency_mhz") (codes "Max RAM Frequency (MHz)") number
    ∷ required (codes "m2_slots") (codes "M.2 Slots") integer
    ∷ required (codes "pci_express_x16") (codes "PCIe x16 Slots") integer
    ∷ required (codes "vrm") (codes "VRM") integer
    ∷ required (codes "avg_price") (codes "Avg Price ($)") number
    ∷ required (codes "score") (codes "Score") integer
    ∷ []

abbrev pub psu_fields : List FieldConfig
psu_fields =
    required (codes "brand") (codes "Brand") text
    ∷ required (codes "series") (codes "Series") text
    ∷ required (codes "power_amount") (codes "Power (W)") integer
    ∷ choice (codes "ranking") (codes "80+ Ranking") psu_rankings
    ∷ switch (codes "eighty_plus_cert") (codes "80+ Certified")
    ∷ required (codes "avg_price") (codes "Avg Price ($)") number
    ∷ required (codes "score") (codes "Score") integer
    ∷ []

abbrev pub ssd_fields : List FieldConfig
ssd_fields =
    required (codes "brand") (codes "Brand") text
    ∷ required (codes "series") (codes "Series") text
    ∷ required (codes "amount") (codes "Capacity (GB)") integer
    ∷ choice (codes "type") (codes "Type") ssd_types
    ∷ required (codes "reading") (codes "Read Speed (MB/s)") integer
    ∷ required (codes "writing") (codes "Write Speed (MB/s)") integer
    ∷ required (codes "avg_price") (codes "Avg Price ($)") number
    ∷ required (codes "score") (codes "Score") integer
    ∷ []

abbrev pub fields_of : HardwareKind → List FieldConfig
fields_of cpu = cpu_fields
fields_of gpu = gpu_fields
fields_of ram = ram_fields
fields_of motherboard = motherboard_fields
fields_of psu = psu_fields
fields_of ssd = ssd_fields

abbrev pub label_of : HardwareKind → JsString
label_of cpu = codes "CPU"
label_of gpu = codes "GPU"
label_of ram = codes "RAM"
label_of motherboard = codes "Motherboard"
label_of psu = codes "PSU"
label_of ssd = codes "SSD"

abbrev pub searchable_columns : HardwareKind → List JsString
searchable_columns cpu = codes "brand" ∷ codes "family" ∷ codes "series" ∷ codes "socket" ∷ []
searchable_columns gpu = codes "brand" ∷ codes "family" ∷ codes "series" ∷ []
searchable_columns ram = codes "brand" ∷ codes "series" ∷ codes "ddr" ∷ []
searchable_columns motherboard = codes "brand" ∷ codes "series" ∷ codes "socket" ∷ []
searchable_columns psu = codes "brand" ∷ codes "series" ∷ codes "ranking" ∷ []
searchable_columns ssd = codes "brand" ∷ codes "series" ∷ codes "type" ∷ []

-- `hardwareResources`.
abbrev pub hardware_resources : List HardwareKind
hardware_resources = cpu ∷ gpu ∷ ram ∷ motherboard ∷ psu ∷ ssd ∷ []

unfoldable pub api_of : {P : Type 0} → HardwareKind → HardwareResourceApi P
unfolding create_hardware_resource_api
api_of cpu = create_hardware_resource_api (codes "hardware/cpus")
api_of gpu = create_hardware_resource_api (codes "hardware/gpus")
api_of ram = create_hardware_resource_api (codes "hardware/rams")
api_of motherboard = create_hardware_resource_api (codes "hardware/motherboards")
api_of psu = create_hardware_resource_api (codes "hardware/psus")
api_of ssd = create_hardware_resource_api (codes "hardware/ssds")
