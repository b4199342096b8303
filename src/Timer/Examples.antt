-- ===== src/Timer/Examples.antt =====
-- The process table after the boot, for the examples.
use os.Prelude.{arith, refl, minus_one}
use os.Process.{Processes}
use os.Kernel.Examples.{block}
use os.Timer.Boot.{IsIdle}

abbrev pub nobody : Processes
nobody = record { curr = 0; t_curr = λ t. minus_one; proc_state = λ q. 0; pcb = λ q. block 0 0 0 }

pub nobody-IsIdle : IsIdle nobody
nobody-IsIdle = record {
  nothing_shown = λ t. refl;
  unused = λ q. refl;
  clean = λ q i low high. ground arith;
}
