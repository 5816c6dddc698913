-- ===== src/Concurrency.antt =====
-- dispatcher/src/concurrency/concurrent_{hashmap,queue}.h. Each operation runs under the object's
-- mutex, so it is one step on the contents; `pop` is enabled once the queue is not empty.
pub mod HashMap
pub mod Queue
pub mod Unordered
mod Tests
