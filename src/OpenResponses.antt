-- ===== src/OpenResponses.antt =====
-- internal/llm/openresponses/client.go: the client that posts a conversation to a model and reads the
-- answer as server-sent events. encoding/json and the format `%d` are parameters.
pub mod Json
pub mod Payload
pub mod Input
pub mod Mapping
pub mod Stream
pub mod Fuel
pub mod Frames
pub mod Provider
pub mod RoundTrip
pub mod History
pub mod Shown
pub mod Client
