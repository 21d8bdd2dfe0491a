-- ===== src/Echo.antt =====
-- The client of socket_test/tcp_select_server_v2.c: its buffers, and the two handlers that fill and
-- empty them. The other event-driven servers share the record, the scan and the copying loop.
pub mod Client
pub mod Views
pub mod Copy
pub mod Recv
pub mod Send
pub mod Stream
