-- ===== src/Timer.antt =====
-- src/aiotools/timer.py: the loop of `create_timer`, cut at its two `await`s, and `VirtualClock`. The group
-- that runs the tasks is the standard library's; it creates them on the event loop.
pub mod Overlap
pub mod Clock
pub mod Patching
pub mod Ending
mod Tests
use aiotools.Prelude.{
  ℕ, ◌+◌, ◌&&◌, not, if◌then◌else◌, Bool, true, false, Option, none, some, List, [], ◌∷◌, ◌++◌,
}
use aiotools.EventLoop
use aiotools.EventLoop.{Loop, is_done, cancel_pending}

-- `TimerDelayPolicy`
pub data TimerDelayPolicy : Type 0 where
  default cancel : TimerDelayPolicy

-- The `await` at which `_timer` is suspended: `asyncio.gather` or `asyncio.sleep`.
pub data Suspended : Type 0 where
  gathering sleeping : Suspended

pub record Timer : Type 0 where
  pub delay_policy : TimerDelayPolicy
  pub fired_tasks : List ℕ
  pub suspended : Suspended
  pub loop : Loop

-- `[t for t in fired_tasks if not t.done()]`
unfoldable pub undone : Loop → List ℕ → List ℕ
undone w [] = []
undone w (t ∷ ts) = let rest = undone w ts in if is_done w t then rest else t ∷ rest

-- `task_group.create_task(cb(interval))`, and on to the `sleep`
unfoldable pub fire : Timer → Timer
fire r =
    let (w, t) = EventLoop.create_task r.loop in
    record r { fired_tasks = r.fired_tasks ++ t ∷ []; suspended = sleeping; loop = w }

unfoldable pub round_of : TimerDelayPolicy → Timer → Timer
unfolding fire undone
round_of default r = fire (record r { fired_tasks = undone r.loop r.fired_tasks })
round_of cancel r = record r {
  suspended = gathering;
  loop = cancel_pending none r.fired_tasks r.loop;
}

-- the body of `while True` down to its first `await`
unfoldable pub round : Timer → Timer
unfolding round_of
round r = round_of r.delay_policy r

-- whether `asyncio.gather` is done
unfoldable pub all_done : Loop → List ℕ → Bool
all_done w [] = true
all_done w (t ∷ ts) = is_done w t && all_done w ts

-- the body from `await asyncio.gather(…)` on
unfoldable pub after_gather : Timer → Timer
unfolding fire
after_gather r = fire (record r { fired_tasks = [] })

unfoldable pub resume_at : Suspended → Timer → Timer
unfolding round all_done after_gather
resume_at sleeping r = round r
resume_at gathering r = if all_done r.loop r.fired_tasks then after_gather r else r

-- the loop resumes `_timer`
unfoldable pub resume : Timer → Timer
unfolding resume_at
resume r = resume_at r.suspended r

-- `VirtualClock`, its time in clock ticks
pub record VirtualClock : Type 0 where
  pub vtime : ℕ

-- `_virtual_select`: the clock, and the timeout that is given to `orig_select`
unfoldable pub virtual_select : Option ℕ → VirtualClock → VirtualClock × ℕ
virtual_select none c = (c, 0)
virtual_select (some timeout) c = (record { vtime = c.vtime + timeout }, 0)
