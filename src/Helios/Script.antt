-- ===== src/Helios/Script.antt =====
-- buildZonecfgScript of helios/helios_zone.ts: the script that configures a zone.
use swamp_extensions.Common.{
  ℕ, ◌+◌, ◌/◌, Bool, List, [], ◌∷◌, ◌++◌, Option, none, some, if◌then◌else◌, ◌==◌, text_test, ◌&&◌,
  not, is_empty, flat_map,
}
use swamp_extensions.Common.Text.{Text, lit, join}
use swamp_extensions.Common.Decimal.{decimal}
use swamp_extensions.Common.Json.{Number}
use swamp_extensions.Helios.Schema.{BhyveDisk, BhyveSpec}

pub record Lofs : Type 0 where
  pub dir : Text
  pub special : Text
  pub ro : Bool

pub record CreateArgs : Type 0 where
  pub name : Text
  pub brand : Text
  pub zonepath : Text
  pub vnic_link : Option Text
  pub allowed_address : Option Text
  pub default_router : Option Text
  pub limit_priv : Text
  pub file_mac_profile : Text
  pub capped_cpu : Option Number
  pub capped_memory_mb : Option ℕ
  pub dedicated_cpu : Option Text
  pub delegated_datasets : List Text
  pub lofs : List Lofs
  pub bhyve_spec : Option BhyveSpec

-- A line for a text that is given and not empty.
line_if : Text → Option Text → List Text
line_if key none = []
line_if key (some t) = if is_empty t then [] else (key ++ t) ∷ []

net_lines : Option Text → Option Text → Option Text → List Text
net_lines none address router = []
net_lines (some link) address router =
    if is_empty link
    then []
    else lit "add net"
      ∷ (lit "set physical=" ++ link)
      ∷ (line_if (lit "set allowed-address=") address
          ++ (line_if (lit "set defrouter=") router ++ lit "end" ∷ []))

cpu_lines : (Number → Text) → Option Number → List Text
cpu_lines number_text none = []
cpu_lines number_text (some n) =
    lit "add capped-cpu" ∷ (lit "set ncpus=" ++ number_text n) ∷ lit "end" ∷ []

-- `Math.round(n / 2)` of a whole number.
memory_lines : Option ℕ → List Text
memory_lines none = []
memory_lines (some n) =
    lit "add capped-memory"
    ∷ (lit "set physical=" ++ (decimal n ++ lit "M"))
    ∷ (lit "set swap=" ++ (decimal n ++ lit "M"))
    ∷ (lit "set locked=" ++ (decimal ((n + 1) / 2) ++ lit "M"))
    ∷ lit "end"
    ∷ []

dedicated_lines : Option Text → List Text
dedicated_lines none = []
dedicated_lines (some t) =
    if is_empty t then [] else lit "add dedicated-cpu" ∷ (lit "set ncpus=" ++ t) ∷ lit "end" ∷ []

dataset_lines : Text → List Text
dataset_lines ds = lit "add dataset" ∷ (lit "set name=" ++ ds) ∷ lit "end" ∷ []

lofs_lines : Lofs → List Text
lofs_lines m =
    lit "add fs"
    ∷ (lit "set dir=" ++ m.dir)
    ∷ (lit "set special=" ++ m.special)
    ∷ lit "set type=lofs"
    ∷ ((if m.ro then lit "add options ro" ∷ [] else []) ++ lit "end" ∷ [])

attr : Text → Text → Text
attr name value =
    lit "add attr; set name="
    ++ (name ++ (lit "; set type=string; set value=" ++ (value ++ lit "; end")))

vnc_lines : Option ℕ → List Text
vnc_lines none = []
vnc_lines (some port) = attr (lit "vnc") (lit "on,port=" ++ decimal port) ∷ []

disk_lines : BhyveDisk → List Text
disk_lines d =
    lit "add device" ∷ (lit "set match=" ++ d.path) ∷ attr (lit "model") d.model ∷ lit "end" ∷ []

spec_lines : Option BhyveSpec → List Text
spec_lines none = []
spec_lines (some b) =
    attr (lit "vcpus") (decimal b.vcpus)
    ∷ attr (lit "ram") (decimal b.ram_mb ++ lit "M")
    ∷ attr (lit "bootrom") b.bootrom
    ∷ attr (lit "console") b.serial
    ∷ (vnc_lines b.vnc_port ++ flat_map disk_lines b.disks)

-- The settings of the zone itself, in front of its resources.
pub head_lines : CreateArgs → List Text
head_lines args =
    lit "create -b"
    ∷ (lit "set brand=" ++ args.brand)
    ∷ (lit "set zonepath=" ++ args.zonepath)
    ∷ lit "set autoboot=false"
    ∷ lit "set ip-type=exclusive"
    ∷ ((if args.brand == lit "solaris" && not (is_empty args.file_mac_profile)
          then (lit "set file-mac-profile=" ++ args.file_mac_profile) ∷ []
          else [])
        ++ (if is_empty args.limit_priv
            then []
            else (lit "set limitpriv=\"" ++ (args.limit_priv ++ lit "\"")) ∷ []))

module _ (number_text : Number → Text) where
  pub resource_lines : CreateArgs → List Text
  resource_lines args =
      net_lines args.vnic_link args.allowed_address args.default_router
      ++ (cpu_lines number_text args.capped_cpu
          ++ (memory_lines args.capped_memory_mb
              ++ (dedicated_lines args.dedicated_cpu
                  ++ (flat_map dataset_lines args.delegated_datasets
                      ++ (flat_map lofs_lines args.lofs
                          ++ (if args.brand == lit "bhyve"
                              then spec_lines args.bhyve_spec
                              else []))))))

  pub script_lines : CreateArgs → List Text
  script_lines args =
      head_lines args ++ (resource_lines args ++ lit "verify" ∷ lit "commit" ∷ lit "exit" ∷ [])

  pub build_zonecfg_script : CreateArgs → Text
  build_zonecfg_script args = join (lit "\n") (script_lines args) ++ lit "\n"
