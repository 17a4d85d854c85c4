-- ===== src/Server.antt =====
-- src/aiotools/server.py: `start_server` (Serving) with its loops that spawn (Spawning), its stop signals and
-- its last wait (Main, Stopping, Happening) and `cancel_all_tasks` (Ending); a worker (Worker), an extra process
-- (Extra) and the context managers of the workers and of the main program (Managers, Entering).
pub mod Main
pub mod Stopping
pub mod Happening
pub mod Managers
pub mod Worker
pub mod Ending
pub mod Extra
pub mod Spawning
pub mod Serving
pub mod Entering
mod Tests
mod StartTests
mod ServingTests
