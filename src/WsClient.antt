-- ===== src/WsClient.antt =====
-- conformance/h3websocket/client.py: the client that opens WebSockets over HTTP/3 on one QUIC
-- connection after another, and judges what the server answers.
pub mod Framing
pub mod Utf8
pub mod Session
pub mod Script
pub mod Tests
