-- ===== src/Api/Action.antt =====
-- api/v1alpha1/action.go, and the type Action of api/v1alpha1/task.go.
use rufio.Prelude.{Bool, Option, List}
use rufio.Prelude.Text.{Text, codes}

abbrev pub PowerAction : Type 0
PowerAction = Text

abbrev pub power_on : PowerAction
power_on = codes "on"

abbrev pub power_hard_off : PowerAction
power_hard_off = codes "off"

abbrev pub power_soft_off : PowerAction
power_soft_off = codes "soft"

abbrev pub power_cycle : PowerAction
power_cycle = codes "cycle"

abbrev pub power_reset : PowerAction
power_reset = codes "reset"

abbrev pub power_status : PowerAction
power_status = codes "status"

abbrev pub BootDevice : Type 0
BootDevice = Text

abbrev pub pxe : BootDevice
pxe = codes "pxe"

abbrev pub disk : BootDevice
disk = codes "disk"

abbrev pub bios : BootDevice
bios = codes "bios"

abbrev pub cdrom : BootDevice
cdrom = codes "cdrom"

abbrev pub safe : BootDevice
safe = codes "safe"

pub record OneTimeBootDeviceAction : Type 0 where
  pub devices : List BootDevice
  pub efi_boot : Bool

abbrev pub VirtualMediaKind : Type 0
VirtualMediaKind = Text

abbrev pub virtual_media_cd : VirtualMediaKind
virtual_media_cd = codes "CD"

pub record VirtualMediaAction : Type 0 where
  pub media_url : Text
  pub kind : VirtualMediaKind

-- A nil pointer is `none`.
pub record Action : Type 0 where
  pub power_action : Option PowerAction
  pub one_time_boot_device_action : Option OneTimeBootDeviceAction
  pub virtual_media_action : Option VirtualMediaAction
