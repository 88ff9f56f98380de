-- ===== src/Queue/Script.antt =====
-- The Lua scripts of app/services/queue_service.py. A script reads the keyspace and gives its
-- reply with the commands that it executes, in order; Redis runs them with nothing in between
-- (`Redis.run`). Where `cjson.decode` fails the reply is an error and what stood above it in the
-- script has been executed.
pub mod Enqueue
pub mod Claim
pub mod Finish
pub mod Fail
pub mod Replay
pub mod Defer
pub mod Cancel
pub mod Types
