-- ===== src/Ahci/Debug.antt =====
-- What the `Debug` implementations of src/ahci.rs write, the derived ones for the fields of the status
-- included.
use capucho_os.Base.{List, ◌++◌, ℕ}
use capucho_os.Base.Text.{codes}
use capucho_os.Ahci.{
  detection, if_speed, if_power_management, InterfaceSpeed, gen1, gen2, gen3,
  InterfacePowerManagement, active, partial, slumber, dev_sleep, DeviceDetection, device_no_phy,
  device, interface_disabled,
}

unfoldable pub speed_text : InterfaceSpeed → List ℕ
speed_text gen1 = codes "Gen1"
speed_text gen2 = codes "Gen2"
speed_text gen3 = codes "Gen3"
speed_text InterfaceSpeed.reserved = codes "Reserved"

unfoldable pub power_management_text : InterfacePowerManagement → List ℕ
power_management_text InterfacePowerManagement.no_device = codes "NoDevice"
power_management_text active = codes "Active"
power_management_text partial = codes "Partial"
power_management_text slumber = codes "Slumber"
power_management_text dev_sleep = codes "DevSleep"
power_management_text InterfacePowerManagement.reserved = codes "Reserved"

unfoldable pub detection_text : DeviceDetection → List ℕ
detection_text DeviceDetection.no_device = codes "NoDevice"
detection_text device_no_phy = codes "DeviceNoPhy"
detection_text device = codes "Device"
detection_text interface_disabled = codes "InterfaceDisabled"
detection_text DeviceDetection.reserved = codes "Reserved"

-- `Debug` of `StatusPort`.
unfoldable pub status_text : ℕ → List ℕ
status_text status =
    detection_text (detection status)
    ++ codes " | "
    ++ power_management_text (if_power_management status)
    ++ codes " | "
    ++ speed_text (if_speed status)
