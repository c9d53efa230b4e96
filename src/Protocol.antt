-- ===== src/Protocol.antt =====
-- proxy/protocol: the Kafka wire format.
pub mod Varint
pub mod Decoder
pub mod PacketEncoder
pub mod PrepEncoder
pub mod RealEncoder
pub mod Encoding
pub mod Wire
pub mod Schema
pub mod Responses
pub mod SaslResponses
pub mod KeyVersion
pub mod Headers
pub mod Requests
