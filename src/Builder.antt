-- ===== src/Builder.antt =====
-- The book builder of include/ItchBook.hpp. The pool and the index are interfaces, which
-- include/ObjectPool.hpp and include/OrderIndex.hpp implement.
mod Tests
pub mod Stats
pub mod Listeners
pub mod State
pub mod Change
pub mod Handlers
pub mod Events
pub mod Notify
