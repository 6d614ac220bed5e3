-- ===== src/Migrate/Edit.antt =====
-- migrate/build.ts: netplanBody and buildEditGuestDiskScript, the edit of a disk that is not in use.
use swamp_extensions.Common.{
  ℕ, Bool, List, [], ◌∷◌, ◌++◌, Option, none, some, if◌then◌else◌, is_empty, get_or,
}
use swamp_extensions.Common.Text.{Text, lit, join}
use swamp_extensions.Common.Decimal.{decimal}
use swamp_extensions.Migrate.Build.{shq}

pub data TargetMode : Type 0 where
  local nbd : TargetMode

pub record EditGuestDiskParams : Type 0 where
  pub target_mode : TargetMode
  pub nbd_host : Option Text
  pub nbd_port : ℕ
  pub nbd_device : Text
  pub local_dev_path : Option Text
  pub vg_name : Text
  pub lv_name : Text
  pub mount_point : Text
  pub lvm_global_filter : Text
  pub target_mac : Text
  pub use_dhcp : Bool
  pub static_cidr : Option Text
  pub gateway : Option Text

-- The lines that a value gives where it is there and not empty.
lines_for : Option Text → (Text → List Text) → List Text
lines_for none f = []
lines_for (some t) f = if is_empty t then [] else f t

address_lines : EditGuestDiskParams → List Text
address_lines p =
    if p.use_dhcp
    then lit "      dhcp4: true" ∷ []
    else lit "      dhcp4: false"
      ∷ (lines_for p.static_cidr (λ t. lit "      addresses:" ∷ (lit "        - " ++ t) ∷ [])
          ++ lines_for p.gateway (λ t.
            lit "      routes:" ∷ lit "        - to: default" ∷ (lit "          via: " ++ t) ∷ []))

pub netplan_lines : EditGuestDiskParams → List Text
netplan_lines p =
    lit "network:"
    ∷ lit "  version: 2"
    ∷ lit "  ethernets:"
    ∷ lit "    primary:"
    ∷ lit "      match:"
    ∷ (lit "        macaddress: " ++ p.target_mac)
    ∷ lit "      set-name: net0"
    ∷ address_lines p

pub netplan_body : EditGuestDiskParams → Text
netplan_body p = join (lit "\n") (netplan_lines p)

pub teardown_nbd : EditGuestDiskParams → Text
teardown_nbd p = elim p.target_mode [
  | nbd ↦ lit "qemu-nbd -d " ++ (shq p.nbd_device ++ lit " 2>/dev/null || true")
  | local ↦ lit "true"
]

-- `nbd://<host>:<port>`.
nbd_url : EditGuestDiskParams → Text
nbd_url p = lit "nbd://" ++ (get_or p.nbd_host (lit "undefined") ++ (lit ":" ++ decimal p.nbd_port))

pub setup_dev : EditGuestDiskParams → Text
setup_dev p = elim p.target_mode [
  | nbd ↦ join (lit "\n") (
      lit "modprobe nbd max_part=8"
      ∷ (lit "qemu-nbd -c "
          ++ (shq p.nbd_device ++ (lit " " ++ (shq (nbd_url p) ++ lit " -f raw"))))
      ∷ [])
  | local ↦ lit "test -b " ++ shq (get_or p.local_dev_path [])
]

-- `vgchange <change> <vg> --config <filter>`.
vgchange : Text → EditGuestDiskParams → Text
vgchange change p =
    lit "vgchange "
    ++ (change
        ++ (lit " "
            ++ (shq p.vg_name
                ++ (lit " --config "
                    ++ shq (lit "devices{global_filter=[" ++ (p.lvm_global_filter ++ lit "]}"))))))

pub cleanup_lines : EditGuestDiskParams → List Text
cleanup_lines p =
    lit "cleanup() {"
    ∷ lit "  umount \"$MNT\" 2>/dev/null || true"
    ∷ (lit "  " ++ (vgchange (lit "-an") p ++ lit " 2>/dev/null || true"))
    ∷ (lit "  " ++ teardown_nbd p)
    ∷ lit "}"
    ∷ lit "trap cleanup EXIT"
    ∷ []

pub mount_lines : EditGuestDiskParams → List Text
mount_lines p =
    setup_dev p
    ∷ vgchange (lit "-ay") p
    ∷ lit "mkdir -p \"$MNT\""
    ∷ (lit "mount "
        ++ (shq (lit "/dev/" ++ (p.vg_name ++ (lit "/" ++ p.lv_name))) ++ lit " \"$MNT\""))
    ∷ lit "mkdir -p \"$MNT/etc/netplan\" \"$MNT/etc/cloud/cloud.cfg.d\""
    ∷ []

pub write_lines : EditGuestDiskParams → List Text
write_lines p =
    lit "cat > \"$MNT/etc/netplan/99-swamp-migrate.yaml\" <<'SWAMP_NETPLAN'"
    ∷ netplan_body p
    ∷ lit "SWAMP_NETPLAN"
    ∷ lit "chmod 600 \"$MNT/etc/netplan/99-swamp-migrate.yaml\""
    ∷ lit
        "printf 'network: {config: disabled}\\n' > \"$MNT/etc/cloud/cloud.cfg.d/99-disable-network-config.cfg\""
    ∷ lit "sync"
    ∷ lit "echo swamp-edit-ok"
    ∷ []

pub build_edit_guest_disk_script : EditGuestDiskParams → Text
build_edit_guest_disk_script p = join (lit "\n") (
    lit "set -e"
    ∷ (lit "MNT=" ++ shq p.mount_point)
    ∷ (cleanup_lines p ++ (mount_lines p ++ write_lines p)))
