-- ===== src/LifeCycle/Detached.antt =====
-- What one step of the first loop of `~gc_impl` does, for an object on a page.
use gca.World.{World}
