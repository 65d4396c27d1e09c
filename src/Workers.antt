-- ===== src/Workers.antt =====
-- lambda-extensions/workers/: the HTTP handlers that fill the data queue and the consumers that empty
-- it, in standard mode and in managed instance mode.
pub mod Channel
pub mod ChannelLaws
pub mod Sender
pub mod Consumer
pub mod ManagedConsumer
pub mod Producer
pub mod ManagedProducer
pub mod Interleaving
pub mod ManagedLoop
pub mod Contended
