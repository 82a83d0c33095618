-- ===== src/Interface.antt =====
-- controllers/networkinterface_controller.go: the reconciler of network interfaces.
pub mod Spec
pub mod Routes
pub mod Nat
pub mod Firewall
pub mod Parts
pub mod Device
pub mod Applying
pub mod Deleting
pub mod Control
pub mod Families
pub mod Rules
pub mod Visits
pub mod Turns
pub mod Rounds
pub mod Prefixes
pub mod Targets
pub mod RuleRounds
pub mod Frames
pub mod PartFrames
pub mod ControlFrames
pub mod Conserving
pub mod Removal
pub mod Positions
pub mod Publishing
pub mod Translation
