-- ===== src/KeyboardHandler/Soundness.antt =====
-- The keyboard's handler and the processes.
use os.Prelude.{
  ℕ, suc, ◌-◌, ◌≤◌, ◌≡◌, ◌≢◌, ◌⊎◌, inl, inr, refl, arith, true, false, List, [], ◌∷◌, some, ℤ, pos,
  minus_one, Bool-cases, ap, ◌∙◌, sym,
}
use os.Strings.{strlen, strlen_from}
use os.FileSys.{is_minus_one}
use os.Process.{get_pid}
use os.Keyboard.{no_request, start_shell}
use os.Kernel.{
  Kernel, Frame, Outcome, returned, entered, resumed, processes, shell, execute_with_terminal_num,
}
use os.KeyboardHandler.Flags.{on_scan_code_lem}
use os.KeyboardHandler.{keyboard_handler, handle_codes, type_code, mark_running}
use os.Command.{Locals}
use os.Kernel.Tree.{IsTree, start_process_lem}
use os.Kernel.Execute.{Executed, refused, started, execute-Executed, Executed-IsTree, get_pid-free}

-- A terminal whose flag is down has no process.
pub record FlagsHold (k : Kernel) : Type 0 where
  pub two : k.system.keyboard.terminal_2_running ≡ 0 → (processes k).t_curr 1 ≡ minus_one
  pub three : k.system.keyboard.terminal_3_running ≡ 0 → (processes k).t_curr 2 ≡ minus_one

-- The state between two scan codes.
pub record IsSound (k : Kernel) : Type 0 where
  pub tree : IsTree (processes k)
  pub flags : FlagsHold k

-- `execute` for a terminal whose flag is up.
Executed-IsSound :
    (t : ℕ) (f : Frame) (k k' : Kernel) (o : Outcome)
    → Executed t f k o k'
    → IsSound k
    → (t ≡ 1) × (k.system.keyboard.terminal_2_running ≡ 1)
      ⊎ (t ≡ 2) × (k.system.keyboard.terminal_3_running ≡ 1)
    → (processes k).t_curr t ≡ minus_one
    → IsSound k'
Executed-IsSound t f k k' o done sound up free = record {
  tree = Executed-IsTree t f k k' o done sound.tree (inl free);
  flags = flags_after done;
}
  where
    flags_after : {o : Outcome} {k' : Kernel} → Executed t f k o k' → FlagsHold k'
    flags_after (refused r k' e e' e'' s) = record {
      two = λ down. ap (λ p. p.t_curr 1) e ∙ sound.flags.two (sym s.two ∙ down);
      three = λ down. ap (λ p. p.t_curr 2) e ∙ sound.flags.three (sym s.three ∙ down);
    }
    flags_after (started pid addr k' e e' e'' s) =
        let own = sound.tree.own (processes k).curr sound.tree.current in
        let other : (processes k).curr ≢ pid = λ same. ground (
          arith,
          get_pid-free pid (processes k) e,
          sound.tree.current,
          ap (processes k).proc_state same,
        ) in
        let at = λ (u : ℕ).
          ap (λ p. p.t_curr u) e' ∙ (start_process_lem pid t 0 u f (processes k) own other).1 in
        record {
          two = λ down. ground (arith, up, s.two, at 1, sound.flags.two);
          three = λ down. ground (arith, up, s.three, at 2, sound.flags.three);
        }

module _ (fuel : ℕ) (f : Frame) (l : Locals) (input : ℕ) (rest : List ℕ) (k : Kernel) where
  next : Kernel
  next = (type_code input k).1

  handle_plain :
      (type_code input k).0 ≡ no_request
      → handle_codes fuel f l (input ∷ rest) k ≡ handle_codes fuel f l rest next
  unfolding handle_codes next
  handle_plain e = rw (e, handle_codes) refl

  handle_full :
      (t : ℕ)
      → (type_code input k).0 ≡ start_shell t
      → is_minus_one (get_pid (processes next)) ≡ true
      → handle_codes fuel f l (input ∷ rest) k ≡ some (returned (pos 0), next)
  unfolding handle_codes next
  handle_full t e full = rw (e, full, handle_codes) refl

  handle_refused :
      (t : ℕ) (r : ℤ) (k' : Kernel)
      → (type_code input k).0 ≡ start_shell t
      → is_minus_one (get_pid (processes next)) ≡ false
      → execute_with_terminal_num fuel f l (some shell) t (mark_running t next)
        ≡ some (returned r, k')
      → handle_codes fuel f l (input ∷ rest) k ≡ handle_codes fuel f l rest k'
  unfolding handle_codes next
  handle_refused t r k' e room runs = rw (e, room, runs, handle_codes) refl

  handle_started :
      (t addr : ℕ) (k' : Kernel)
      → (type_code input k).0 ≡ start_shell t
      → is_minus_one (get_pid (processes next)) ≡ false
      → execute_with_terminal_num fuel f l (some shell) t (mark_running t next)
        ≡ some (entered addr, k')
      → handle_codes fuel f l (input ∷ rest) k ≡ some (entered addr, k')
  unfolding handle_codes next
  handle_started t addr k' e room runs = rw (e, room, runs, handle_codes) refl

  next-IsSound : IsSound k → IsSound next
  unfolding next
  next-IsSound sound =
      let facts = on_scan_code_lem input k.system.keyboard k.system.screen in
      record {
        tree = sound.tree;
        flags = record {
          two = λ down. sound.flags.two (sym facts.0.two ∙ down);
          three = λ down. sound.flags.three (sym facts.0.three ∙ down);
        };
      }

  -- What a scan code may ask for.
  asked :
      ((type_code input k).0 ≡ no_request)
      ⊎ ((t : ℕ) × ((type_code input k).0 ≡ start_shell t)
          × ((t ≡ 1) × (next.system.keyboard.terminal_2_running ≡ 0)
              ⊎ (t ≡ 2) × (next.system.keyboard.terminal_3_running ≡ 0)))
  unfolding next
  asked =
      let facts = on_scan_code_lem input k.system.keyboard k.system.screen in
      elim facts.1 [
        | inl plain ↦ inl plain
        | inr (inl (e, down)) ↦ inr (1, e, inl (refl, facts.0.two ∙ down))
        | inr (inr (e, down)) ↦ inr (2, e, inr (refl, facts.0.three ∙ down))
      ]

mark_running-IsSound : (t : ℕ) (k : Kernel) → IsSound k → IsSound (mark_running t k)
mark_running-IsSound t k sound = record {
  tree = sound.tree;
  flags = record {
    two = λ down. ground (arith, sound.flags.two);
    three = λ down. ground (arith, sound.flags.three);
  };
}

shell_length : (fuel : ℕ) → 6 ≤ fuel → strlen fuel shell ≡ some 5
unfolding strlen strlen_from
shell_length fuel h =
    let e : fuel ≡ suc (suc (suc (suc (suc (suc (fuel - 6)))))) = omega arith in rw e refl

-- The handler has come to an end, and the kernel is sound.
abbrev pub Handled : ℕ → Frame → Locals → List ℕ → Kernel → Type 0
Handled fuel f l codes k =
    (o : Outcome) × (k' : Kernel) × (handle_codes fuel f l codes k ≡ some (o, k')) × IsSound k'

module _ (fuel : ℕ) (f : Frame) (l : Locals) (input : ℕ) (rest : List ℕ) (k : Kernel) (t : ℕ)
    (e : (type_code input k).0 ≡ start_shell t)
    (room : is_minus_one (get_pid (processes (next fuel f l input rest k))) ≡ false)
    (more : (k' : Kernel) → IsSound k' → Handled fuel f l rest k') where
  after_execute :
      (o : Outcome) (k' : Kernel)
      → execute_with_terminal_num fuel f l
          (some shell)
          t
          (mark_running t (next fuel f l input rest k))
        ≡ some (o, k')
      → Executed t f (mark_running t (next fuel f l input rest k)) o k'
      → IsSound k'
      → Handled fuel f l (input ∷ rest) k
  after_execute (returned r) k' runs done sound =
      let (o, last, goes, good) = more k' sound in
      (o, last, handle_refused fuel f l input rest k t r k' e room runs ∙ goes, good)
  after_execute (entered addr) k' runs done sound =
      (entered addr, k', handle_started fuel f l input rest k t addr k' e room runs, sound)
  after_execute (resumed esp ebp eax) k' runs done sound = absurd (elim done [ ])

  with_shell :
      6 ≤ fuel
      → IsSound (next fuel f l input rest k)
      → (t ≡ 1) × ((next fuel f l input rest k).system.keyboard.terminal_2_running ≡ 0)
        ⊎ (t ≡ 2) × ((next fuel f l input rest k).system.keyboard.terminal_3_running ≡ 0)
      → Handled fuel f l (input ∷ rest) k
  with_shell enough sound down =
      let k1 = next fuel f l input rest k in
      let k2 = mark_running t k1 in
      let (o, k', runs, done) = execute-Executed fuel 5 t f l shell k2 (shell_length fuel enough) in
      let free : (processes k1).t_curr t ≡ minus_one = elim down [
        | inl (one, off) ↦ ap (processes k1).t_curr one ∙ sound.flags.two off
        | inr (two, off) ↦ ap (processes k1).t_curr two ∙ sound.flags.three off
      ] in
      after_execute o k' runs done
        (Executed-IsSound t f k2 k' o done (mark_running-IsSound t k1 sound) (ground arith) free)

handle_codes-IsSound :
    (codes : List ℕ) (fuel : ℕ) (f : Frame) (l : Locals) (k : Kernel)
    → 6 ≤ fuel
    → IsSound k
    → (o : Outcome) × (k' : Kernel) × (handle_codes fuel f l codes k ≡ some (o, k')) × IsSound k'
unfolding handle_codes
handle_codes-IsSound [] fuel f l k enough sound = (
  returned (pos 0),
  record k { interrupts = true },
  refl,
  record { tree = sound.tree; flags = record { two = sound.flags.two; three = sound.flags.three } },
)
handle_codes-IsSound (input ∷ rest) fuel f l k enough sound =
    let k1 = next fuel f l input rest k in
    let sound1 = next-IsSound fuel f l input rest k sound in
    elim (asked fuel f l input rest k) [
      | inl plain ↦
          let (o, k', runs, good) = handle_codes-IsSound rest fuel f l k1 enough sound1 in
          (o, k', handle_plain fuel f l input rest k plain ∙ runs, good)
      | inr (t, e, down) ↦ elim (Bool-cases (is_minus_one (get_pid (processes k1)))) [
        | inl full ↦ (returned (pos 0), k1, handle_full fuel f l input rest k t e full, sound1)
        | inr room ↦
            with_shell fuel f l input rest k t e room
              (λ k' good. handle_codes-IsSound rest fuel f l k' enough good) enough sound1 down
      ]
    ]

-- Whatever keys are pressed, the keyboard's handler comes to an end, and leaves the processes in their
-- chains and every terminal whose flag is down without a process, as it found them. Six rounds of fuel
-- are enough, which the name "shell" takes.
pub keyboard_handler-IsSound :
    (codes : List ℕ) (fuel : ℕ) (f : Frame) (l : Locals) (k : Kernel)
    → 6 ≤ fuel
    → IsSound k
    → (o : Outcome) × (k' : Kernel) × (keyboard_handler fuel f l codes k ≡ some (o, k'))
      × IsSound k'
unfolding keyboard_handler
keyboard_handler-IsSound codes fuel f l k enough sound =
    handle_codes-IsSound codes fuel f l _ enough (record {
      tree = sound.tree;
      flags = record { two = sound.flags.two; three = sound.flags.three };
    })
