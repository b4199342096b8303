-- ===== src/Process/Halting.antt =====
-- The descriptors of a process from its end to the next process with the same block.
use os.Prelude.{
  ℕ, zero, suc, ◌+◌, ◌<◌, ◌≤◌, ◌≡◌, refl, arith, ◌&&◌, ◌==◌, ltb, leb, if◌then◌else◌, pos, in_range,
}
use os.FileSys.{is_minus_one}
use os.Process.{Processes, close, close_all, shut, init_files, pcb_init, fdesc_size, get_esp}
use os.Process.Files.{InStep}

abbrev pub flag_of : ℕ → Processes → ℕ
flag_of j p = ((p.pcb p.curr).file_array j).flag

abbrev pub bit_of : ℕ → Processes → ℕ
bit_of j p = (p.pcb p.curr).bitmap j

shut_lem :
    (i j : ℕ) (p : Processes)
    → i < fdesc_size
    → (2 ≤ j → flag_of j p ≡ (if bit_of j p == 0 then 0 else 1))
    → (flag_of j (shut i p) ≡ (if j == i then 0 else flag_of j p))
      × (bit_of j (shut i p) ≡ (if j == i && leb 2 i then 0 else bit_of j p))
unfolding shut close
shut_lem i j p h step = ground (arith, step)

close_all_at :
    (n i j : ℕ) (p : Processes)
    → i + n ≤ fdesc_size
    → (2 ≤ j → flag_of j p ≡ (if bit_of j p == 0 then 0 else 1))
    → (flag_of j (close_all n i p) ≡ (if in_range i n j then 0 else flag_of j p))
      × (bit_of j (close_all n i p) ≡ (if in_range i n j && leb 2 j then 0 else bit_of j p))
unfolding close_all
close_all_at zero i j p h step = ground arith
close_all_at (suc n) i j p h step = ground (
  arith,
  shut_lem i j p (omega arith) step,
  close_all_at n (i + 1) j (shut i p) (omega arith)
      (ground (arith, shut_lem i j p (omega arith) step)),
)

-- The loop of `halt` leaves every flag of the ending process down and the places 2 to 7 free, if the
-- flags and the places were in step.
pub close_all_lem :
    (p : Processes) (j : ℕ)
    → InStep (p.pcb p.curr)
    → j < fdesc_size
    → (flag_of j (close_all fdesc_size 0 p) ≡ 0) × (2 ≤ j → bit_of j (close_all fdesc_size 0 p) ≡ 0)
unfolding InStep
close_all_lem p j h low =
    ground (arith, close_all_at fdesc_size 0 j p (omega arith) (λ two. h j two low))

-- A new process in a block whose places 2 to 7 are free has its flags and places in step, only stdin and
-- stdout open, its stack at the top of its own kernel stack, and is the running process and the one of
-- its terminal. Its parent is itself if the terminal had no process, and else the process that was
-- running.
pub pcb_init_lem :
    (pid terminal_num : ℕ) (p : Processes)
    → ((i : ℕ) → 2 ≤ i → i < fdesc_size → (p.pcb pid).bitmap i ≡ 0)
    → (p.pcb p.curr).pid ≡ p.curr
    → let p' = pcb_init pid terminal_num p in
      InStep (p'.pcb pid)
      × ((i : ℕ) → i < fdesc_size → ((p'.pcb pid).file_array i).flag ≡ (if ltb i 2 then 1 else 0))
      × ((p'.pcb pid).current_esp ≡ get_esp pid)
      × (p'.curr ≡ pid)
      × (p'.t_curr terminal_num ≡ pos pid)
      × ((p'.pcb pid).p_pid ≡ (if is_minus_one (p.t_curr terminal_num) then pid else p.curr))
unfolding pcb_init init_files InStep
pcb_init_lem pid t p free own = (
  λ i h h'. ground (arith, free i),
  λ i h. ground arith,
  ground arith,
  refl,
  ground arith,
  ground (arith, own),
)
