-- ===== src/Tcp/Control.antt =====
-- tcp/control.go and tcp/control_rcvhandlers.go: the Transmission Control Block.
pub mod Block
pub mod Incoming
pub mod Recv
pub mod Send
pub mod Cases
pub mod Transitions
pub mod Errors
pub mod Sending
pub mod Receiving
pub mod Challenge
pub mod Peers
pub mod Steps
pub mod Handshake
pub mod Data
pub mod OppositeAck
pub mod Refusals
mod Tests
