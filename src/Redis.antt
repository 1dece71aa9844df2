-- ===== src/Redis.antt =====
-- The Redis server, which is no part of the repository: libs/redis/src passes its commands on. It is
-- a parameter, a store with the commands that the program sends and their documented effect on what
-- the store holds. Each kind of value has names of its own, since RedisKeyBuilder.ts gives no two
-- kinds one name; a command never fails, and the expiry of a key is a step of the environment.
mod Contents
mod Commands
mod Hashes
mod Lists
mod Ordered
mod Memory
mod Scores
pub use Contents.*
unfoldable pub use Commands.*
pub use Hashes.*
pub use Lists.*
pub use Ordered.*
pub use Memory.*
pub use Scores.*

pub ruleset store_laws = (hashes_reads, lists_reads, ordered_reads)
