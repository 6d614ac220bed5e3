-- ===== src/Helios/Schema.antt =====
-- The resources that the models of helios write. A field that is read by position may be undefined.
use swamp_extensions.Common.{ℕ, Bool, List, Option}
use swamp_extensions.Common.Text.{Text}
use swamp_extensions.Common.Json.{Number}

pub record BhyveDisk : Type 0 where
  pub path : Text
  pub model : Text

pub record BhyveSpec : Type 0 where
  pub vcpus : ℕ
  pub ram_mb : ℕ
  pub bootrom : Text
  pub serial : Text
  pub disks : List BhyveDisk
  pub vnc_port : Option ℕ

pub record Zone : Type 0 where
  pub name : Option Text
  pub brand : Option Text
  pub state : Option Text
  pub uuid : Option Text
  pub zonepath : Option Text
  pub autoboot : Bool
  pub ip_type : Option Text
  pub vnic : Option Text
  pub allowed_address : Option Text
  pub default_router : Option Text
  pub limit_priv : Option Text
  pub file_mac_profile : Option Text
  pub capped_cpu : Option Number
  pub capped_memory_mb : Option Number
  pub dedicated_cpu : Option Text
  pub delegated_datasets : List Text
  pub bhyve : Option BhyveSpec
  pub zonecfg_raw : Text
  pub observed_at : Text

pub record Network : Type 0 where
  pub vnic : Text
  pub mac : Option Text
  pub over : Option Text
  pub state : Option Text
  pub speed_mbps : Option Number
  pub link_protection : Option Text
  pub allowed_ips : List Text
  pub rx_bytes : Option Number
  pub tx_bytes : Option Number

pub record Storage : Type 0 where
  pub dataset : Text
  pub used : Option Number
  pub avail : Option Number
  pub quota : Option Number
  pub refer : Option Number
  pub compression : Option Text
  pub encryption : Option Text
  pub snapshot_count : Option Number

pub record ZoneInventory : Type 0 where
  pub zone : Zone
  pub cpu_pct : Option Number
  pub rss_mb : Option Number
  pub swap_mb : Option Number
  pub proc_count : Option Number
  pub rctls : List (Text × Text)
  pub network : Option Network
  pub storage : Option Storage
  pub smf_failed_services : List Text
  pub last_boot_epoch : Option Number
  pub uptime_sec : Option Number
  pub recent_messages : List Text
  pub notes : List Text

pub record InventorySummary : Type 0 where
  pub total_zones : ℕ
  pub by_state : List (Text × ℕ)
  pub by_brand : List (Text × ℕ)
  pub failed_smf_zones : ℕ
  pub zones_with_gather_errors : ℕ
  pub total_cpu_cap : Number
  pub total_memory_cap_mb : Number
  pub observed_at : Text

pub record ExecResult : Type 0 where
  pub zone : Text
  pub command : Text
  pub exit_code : ℕ
  pub stdout : Text
  pub stderr : Text
  pub observed_at : Text

pub record Dataset : Type 0 where
  pub name : Text
  pub type : Option Text
  pub used : Number
  pub avail : Option Number
  pub refer : Number
  pub mountpoint : Option Text
  pub quota : Option Number
  pub reservation : Option Number
  pub compression : Option Text
  pub encryption : Option Text
  pub recordsize : Option Number
  pub zoned : Bool
  pub delegated_to : Option Text
  pub observed_at : Text

pub record Pool : Type 0 where
  pub name : Text
  pub size : Number
  pub alloc : Number
  pub free : Number
  pub health : Option Text
  pub scrub_in_progress : Bool
  pub raw_status : Text
  pub observed_at : Text

pub record Snapshot : Type 0 where
  pub name : Text
  pub used : Number
  pub refer : Number
  pub observed_at : Text

pub record Link : Type 0 where
  pub link : Text
  pub class : Option Text
  pub mtu : Option Number
  pub state : Option Text
  pub over : Option Text
  pub observed_at : Text

pub record Phys : Type 0 where
  pub link : Text
  pub media : Option Text
  pub state : Option Text
  pub speed_mbps : Option Number
  pub duplex : Option Text
  pub device : Option Text
  pub observed_at : Text

pub record Vnic : Type 0 where
  pub link : Text
  pub over : Text
  pub speed_mbps : Option Number
  pub mac_address : Text
  pub vlan_id : Option Number
  pub protection : Option Text
  pub allowed_ips : List Text
  pub observed_at : Text

pub record Etherstub : Type 0 where
  pub link : Text
  pub observed_at : Text

pub data Resource : Type 0 where
  zone : Zone → Resource
  zone_inventory : ZoneInventory → Resource
  inventory_summary : InventorySummary → Resource
  exec_result : ExecResult → Resource
  dataset : Dataset → Resource
  pool : Pool → Resource
  snapshot : Snapshot → Resource
  link : Link → Resource
  phys : Phys → Resource
  vnic : Vnic → Resource
  etherstub : Etherstub → Resource
