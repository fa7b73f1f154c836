-- ===== src/Systemd.antt =====
-- include/pod_installer/systemd.hpp and src/systemd.cpp: the checks on units and slices, the
-- argument vectors for systemctl, and what `systemctl show` prints.
pub mod Unit
pub mod Slice
pub mod Status
pub mod Process
pub mod Controller
pub mod Bus
