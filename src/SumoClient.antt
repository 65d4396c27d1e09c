-- ===== src/SumoClient.antt =====
-- lambda-extensions/sumoclient/sumoclient.go: from the raw messages of the queue to the requests.
pub mod Services
pub mod Codecs
pub mod Chunks
pub mod Endpoint
pub mod Enhance
pub mod Post
pub mod Send
