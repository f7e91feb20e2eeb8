-- ===== src/Tcp.antt =====
-- The tcp package.
pub mod Value
pub mod Segment
pub mod Control
pub mod Rto
pub mod Reassembly
pub mod Sentlist
pub mod RingTx
pub mod SynCookieJar
pub mod OptionCodec
pub mod Frame
pub mod Handler
