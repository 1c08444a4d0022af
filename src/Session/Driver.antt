-- ===== src/Session/Driver.antt =====
-- crates/core/src/session/driver.rs: the background task that owns the socket. It takes one command
-- at a time from its inbox, writes the command's messages, and collects the server's messages until
-- `ReadyForQuery`, when it answers on the command's reply channel.
pub mod State
pub mod Advance
pub mod Run
pub mod Tally
pub mod Replies
pub mod Settled
pub mod Outcomes
mod Tests
