-- ===== src/HostNetwork.antt =====
-- backend/app/operations/host_network/domain.py: the rules for bridges of a host.
pub mod Vlan
pub mod Diff
