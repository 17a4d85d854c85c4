-- ===== src/TaskGroup.antt =====
-- src/aiotools/taskgroup: the persistent task group (persistent.py) and the wrapper of the standard
-- library's task group (base.py, types.py), and code for old interpreters (common.py).
pub mod Persistent
pub mod Base
pub mod Common
