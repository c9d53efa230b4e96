-- ===== src/Lib.antt =====
-- The Kafka proxy: its protocol code (proxy/protocol), which reads the responses of brokers, puts the
-- proxy's own addresses in the place of the brokers' and writes the responses again, and the loops
-- (proxy) that forward the requests of a client to a broker and relay the broker's responses.
--
-- The parts, and the files that model them:
--
-- - Base: Go's (value, error) results and panics (Base/Outcome), signed integers with their wrap
--   (Base/Int), tests and lists over the native numbers. A text is the list of its bytes; a byte is a
--   number, which every reader takes modulo 256 or less.
-- - Protocol/Varint: PutUvarint and Uvarint of encoding/binary.
-- - Protocol/Decoder: realDecoder (proxy/protocol/real_decoder.go). A decoder takes the bytes from
--   `off` on, and gives a value with the bytes that are left, or an error. Decoder/Ranges has what each
--   method can return.
-- - Protocol/PacketEncoder, PrepEncoder, RealEncoder: the interface packetEncoder with the two passes
--   that implement it (prep_encoder.go measures, real_encoder.go writes into a buffer of that size and
--   panics outside of it).
-- - Protocol/Encoding: Encode and Decode (encoder_decoder.go). Encoding/Writes has the contract of the
--   two passes, Encoding/Primitives and Encoding/RoundTrip reading after writing.
-- - Protocol/Wire: the wire format of the primitive types as a specification, with Wire/Writes for the
--   encoders and Wire/Reads for the decoder.
-- - Protocol/Schema: schemas, values and structs (schema.go), Schema/Decode and Schema/Encode for the
--   methods and for DecodeSchema and EncodeSchema; Schema/Layout is the format of a value, and
--   Schema/Typing says which values belong to a schema. The other children are proofs.
-- - Protocol/Responses: the schemas of the metadata and find coordinator responses and their
--   modifiers (responses.go): MetadataParts, MetadataSchemas and CoordinatorSchemas are the tables,
--   Modify is the code that rewrites addresses, GetResponseModifier and Apply.
--   Responses/Refusals says for which addresses of a response the mapping is to blame for an error.
-- - Protocol/KeyVersion: RequestKeyVersion and ResponseHeaderVersion (request_key_version.go).
-- - Protocol/Headers: the response headers and TaggedFields (response_header.go,
--   response_header_v1.go, tagged_fields.go).
-- - Protocol/Requests: Request around a body (request_v1.go), with the SASL handshake request
--   (sasl_handshake.go) and the SASL authenticate request of version 0 (sasl_authenticate_v0.go).
-- - Protocol/SaslResponses: the SASL responses that the proxy reads itself (sasl_handshake.go,
--   sasl_authenticate_v1.go).
-- - Proxy/Channel: the channels of a processor, with the helpers of proxy/processor.go and
--   proxy/processor_default.go that send to them and receive from them.
-- - Proxy/Pairing: the state of the two loops of a processor with the replies of the broker, and in
--   Pairing/Steps their steps, which interleave in any order, one channel operation, one request or token
--   written or one read each: RequestStep and ResponseStep for the default handlers, ReauthStep for
--   runReauth, TokenStep for the handlers of SASL version 0. Pairing/Invariant says what the channels hold
--   at each place, Pairing/Sends, Pairing/Receives, Pairing/Requests and Pairing/Responses keep it,
--   Pairing/Queue follows the channel of the request handlers alone, Pairing/Reached draws the conclusions.
-- - Proxy/AuthState: ConnectionAuthState of proxy/processor.go, with AuthState/Deadlines on its times.
-- - Proxy/Wires: what a loop reads and writes, and io and encoding/binary on it; Wires/Moved,
--   Wires/Transfers and Wires/Flows relate what a call reads to what it writes, Wires/Kept has the calls
--   that leave the channels alone.
-- - Proxy/CopyN: myCopyN (proxy/common.go).
-- - Proxy/Handlers: the request and response handlers (proxy/processor_default.go,
--   proxy/processor_sasl_auth_v0.go) with mustReply and RequestAcksReader
--   (proxy/protocol/request_produce_reader.go, Handlers/Acks), MaybeRead
--   (proxy/protocol/response_header.go, Handlers/TaggedFields, with the format of what it reads in
--   Handlers/TaggedGrammar), runReauth (Handlers/Request) and
--   consumeReauthResponse (Handlers/Response). The other children are proofs.
-- - Proxy/Processor: newProcessor and its loops (proxy/processor.go), a number of rounds at a time.
--   Processor/Piped follows what the requests loop reads and writes.
-- - Examples: runs on concrete bytes.
--
-- The parts interact as in the code: a modifier decodes a response with the schema of its version,
-- changes the struct, and encodes it with the same schema; the schemas call the decoder and the two
-- encoders through the interface. A request handler sends the key and version of a request to the channel
-- of the open requests before it writes the request; the response handler takes them from there for the
-- next response, and they select the modifier. The function from a broker's address to a listener's
-- (config.NetAddressMappingFunc) is a parameter.
--
-- Assumptions: a broker answers the requests of a connection in order (the Kafka protocol), which is how
-- Proxy/Pairing has the replies, and answers a token of SASL version 0 with a length and that many bytes
-- (the lengths that occur are a parameter of the steps); a call of Write takes all bytes or returns an
-- error, and Read, ReadFull and CopyN do what the documentation of io says. A send or a receive that waits is modelled from where
-- its wait ends. Time is what time.Now() returns, an argument of the handlers, and the float64 product in
-- scaleSessionLifetime is a parameter. Metrics and logs are left out.
--
-- Bounds and fuel: all recursion is structural, on the bytes, on the schema or on a count that has been
-- read; a varint has ten groups of seven bits at most, which is the bound in the source. `int` has 64
-- bits. The loops of a processor run for a given number of rounds, so that what holds of a run holds of
-- every prefix of it. myCopyN runs on as many rounds as there are bytes to copy, since every round
-- copies one at least. Go's run-time panics are the error `panicked`, which no caller handles; a number
-- of tagged fields that no address space can hold panics, and running out of memory below it is not
-- modelled.
--
-- Not modelled: the texts of errors beyond their constant part; RequestV2, the later SASL requests and
-- the responses that only a client reads; the first authentication of a connection (sasl_by_proxy.go) and
-- the token providers; ConnSet, the listeners, configuration, TLS, metrics and plugins, which are other
-- parts of the program.
pub mod Base
pub mod Protocol
pub mod Proxy
pub mod Examples
