-- ===== src/Core.antt =====
-- src/core: the data that the other parts exchange, and the screen topology.
pub mod Events
pub mod Key
pub mod KeyModifier
pub mod Grid
pub mod Topology
