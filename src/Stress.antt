-- ===== src/Stress.antt =====
-- socket_test/stress_test_client.c: many connections that send numbered requests to an echo server
-- and check every answer.
pub mod Client
pub mod Request
pub mod Handlers
pub mod Sending
pub mod Receiving
pub mod Ending
pub mod Loop
pub mod Counts
pub mod Turn
pub mod Settled
pub mod Turns
pub mod Ends
pub mod Main
pub mod Sums
pub mod Rounds
pub mod Stuck
pub mod Start
pub mod Connect
pub mod Program
pub mod Success
pub mod Report
pub mod Percentiles
pub mod Echoed
pub mod Summary
