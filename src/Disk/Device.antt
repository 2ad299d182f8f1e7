-- ===== src/Disk/Device.antt =====
-- The names under which devices are reported.
use system_monitoring_dashbo.Prelude.{◌≡◌, true, false, inl, inr, arith, Bool-cases}
use system_monitoring_dashbo.Prelude.Text.{Text, codes, starts_with}
use system_monitoring_dashbo.Disk.{is_whole_device, base_device_name}

-- A whole device that is not an mmcblk one is its own base device: it is reported under its own
-- name.
base_device_name_self :
    (name : Text)
    → (is_whole_device name ≡ true)
    → (starts_with (codes "mmcblk") name ≡ false)
    → base_device_name name ≡ name
unfolding is_whole_device base_device_name
base_device_name_self name whole other = elim (Bool-cases (starts_with (codes "nvme") name)) [
  | inl nvme ↦ ground (arith, nvme, whole, other)
  | inr plain ↦ ground (arith, plain, whole, other)
]
