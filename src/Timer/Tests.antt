-- ===== src/Timer/Tests.antt =====
-- Examples of the timer.
use os.Prelude.{◌*◌, ◌==◌, ltb, if◌then◌else◌, pos, minus_one}
use os.Process.{Processes}
use os.Kernel.{Kernel}
use os.Kernel.Examples.{frame, locals, block}
use os.Timer.Schedule.{Interrupted}

-- The shells of terminals 0 and 2 are running.
abbrev two_shells : Processes
two_shells = record {
  curr = 0;
  t_curr = λ u. if u == 0 then pos 0 else if u == 2 then pos 1 else minus_one;
  proc_state = λ q. if ltb q 2 then 1 else 0;
  pcb = λ q. block q q (2 * q);
}

abbrev met : Interrupted
met = record { frame = frame; locals = locals }
