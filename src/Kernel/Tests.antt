-- ===== src/Kernel/Tests.antt =====
-- Examples of programs that begin and end.
use os.Prelude.{
  ℕ, ◌+◌, ◌*◌, ◌^◌, ◌<◌, ◌≤◌, ◌≡◌, ◌≢◌, ◌==◌, if◌then◌else◌, refl, arith, true, some, pos,
}
use os.Process.{fdesc_size}
use os.Paging.{mb, pt_video}
use os.Paging.Walk.{translate}
use os.Process.{get_pid, find_pid, close_all, shut, close}
use os.Kernel.{Kernel, entered, resumed, processes, shell, execute, halt, end_process, vidmap}
use os.Kernel.Tree.{IsTree}
use os.Kernel.Ending.{end_process-parent}
use os.Kernel.Halt.{execute-halt}
use os.Kernel.Orphan.{halt-orphan}
use os.Kernel.Vidmap.{vidmap_lem}
use os.Kernel.Examples.{
  shell_verified, locals, frame, layout, alone, nested, alone-IsTree, nested-IsTree, kernel_with,
  booted,
}

first_free : get_pid (processes booted) ≡ pos 1
unfolding get_pid find_pid
first_free = refl

end_process-parent_example :
    let p = nested in
    let p' = end_process p in
    IsTree p'
    × (p'.curr ≡ (p.pcb p.curr).p_pid)
    × ((t : ℕ)
        → p'.t_curr t
          ≡ (if t == (p.pcb p.curr).terminal then pos (p.pcb p.curr).p_pid else p.t_curr t))
    × ((q : ℕ) → p'.proc_state q ≡ (if q == p.curr then 0 else p.proc_state q))
    × ((i : ℕ) → 2 ≤ i → i < fdesc_size → (p'.pcb p.curr).bitmap i ≡ 0)
    × ((i : ℕ) → i < fdesc_size → ((p'.pcb p.curr).file_array i).flag ≡ 0)
    × ((q : ℕ) → q ≢ p.curr → p'.pcb q ≡ p.pcb q)
end_process-parent_example = end_process-parent nested nested-IsTree (λ e. ground arith)

-- The shell starts another shell, which ends with the status 3.
execute-halt_example :
    (addr : ℕ) × (k1 : Kernel) × (k2 : Kernel) × (execute 200 frame locals (some shell) booted
      ≡ some (entered addr, k1))
    × (halt 200 frame locals 3 k1 ≡ some (resumed 0x7FFF00 0x7FFF80 3, k2))
    × ((processes k2).curr ≡ 0)
    × ((t : ℕ) → (processes k2).t_curr t ≡ (processes booted).t_curr t)
    × ((q : ℕ) → (processes k2).proc_state q ≡ (processes booted).proc_state q)
execute-halt_example =
    execute-halt 200 3 frame frame locals locals shell shell_verified.0 booted 1 (alone-IsTree 0 0)
      shell_verified.1 first_free

-- The shell of terminal 1 is process 1, and process 0 is free.
abbrev late : Kernel
late = kernel_with (alone 1 1)

lower_free : get_pid (end_process (processes late)) ≡ pos 0
unfolding get_pid find_pid end_process close_all shut close
lower_free = refl

halt-orphan_example :
    (addr : ℕ) × (k' : Kernel) × (halt 200 frame locals 0 late ≡ some (entered addr, k'))
    × ((processes k').curr ≡ 0)
    × (((processes k').pcb 0).p_pid ≡ 1)
    × ((processes k').proc_state 1 ≡ 0)
    × (IsTree (processes k') → ⊥)
halt-orphan_example =
    halt-orphan 200 0 frame locals shell_verified.0 late 0 (alone-IsTree 1 1) refl shell_verified.1
      lower_free (λ e. ground arith)

vidmap_lem_example :
    let r = vidmap layout 0x8000000 booted in
    (r.0 ≡ pos (132 * mb))
    × (r.1 ≡ some (132 * mb))
    × (translate layout r.2.system.screen.paging true (132 * mb + 5) ≡ some (pt_video * 2 ^ 12 + 5))
vidmap_lem_example =
    vidmap_lem layout 0x8000000 5 true booted (λ e. omega arith) (λ e. omega arith) (omega arith)
      (λ e. omega arith) (omega arith) (omega arith)
