-- ===== src/Pic/Masks.antt =====
-- The interrupt masks: which lines `enable_irq` and `disable_irq` open and close.
use os.Prelude.{
  ℕ, ◌-◌, ◌/◌, ◌%◌, ◌^◌, ◌<◌, ◌≡◌, refl, arith, Bool, true, false, ◌&&◌, ltb, ◌==◌, if◌then◌else◌,
}
use os.Prelude.{all_pass, all_pass_at}
use os.Pic.{Pic, clear_bit, set_bit, enable_irq, disable_irq, mstr_num_irqs}

-- Is line `irq` masked? The lines from 8 on are the slave's.
abbrev pub is_masked : Pic → ℕ → Bool
is_masked p irq =
    (if ltb irq mstr_num_irqs
        then p.master_mask / 2 ^ irq
        else p.slave_mask / 2 ^ (irq - mstr_num_irqs))
      % 2
    == 1

-- Bit `j` of a mask with bit `i` cleared, and set.
abbrev bits_agree : ℕ → ℕ → ℕ → Bool
bits_agree i j m =
    (clear_bit m i / 2 ^ j % 2 == (if i == j then 0 else m / 2 ^ j % 2))
    && (set_bit m i / 2 ^ j % 2 == (if i == j then 1 else m / 2 ^ j % 2))

bits_table : all_pass 8 (λ i. all_pass 8 (λ j. all_pass 256 (bits_agree i j))) ≡ true
unfolding all_pass
bits_table = refl

bits_lem : (i j m : ℕ) → i < 8 → j < 8 → m < 256 → bits_agree i j m ≡ true
bits_lem i j m hi hj hm =
    all_pass_at 256 (bits_agree i j) m
      (all_pass_at 8 (λ j'. all_pass 256 (bits_agree i j')) j
        (all_pass_at 8 (λ i'. all_pass 8 (λ j'. all_pass 256 (bits_agree i' j'))) i bits_table hi)
        hj)
      hm

-- The two facts of a table's entry.
bits_cleared :
    (i j m : ℕ)
    → i < 8
    → j < 8
    → m < 256
    → clear_bit m i / 2 ^ j % 2 ≡ (if i == j then 0 else m / 2 ^ j % 2)
bits_cleared i j m hi hj hm = ground (arith, bits_lem i j m hi hj hm)

bits_set :
    (i j m : ℕ)
    → i < 8
    → j < 8
    → m < 256
    → set_bit m i / 2 ^ j % 2 ≡ (if i == j then 1 else m / 2 ^ j % 2)
bits_set i j m hi hj hm = ground (arith, bits_lem i j m hi hj hm)

-- `enable_irq` opens its line and `disable_irq` closes it, on the right controller, and neither touches
-- another line, where the masks are bytes and the lines are those of the two controllers.
enable_irq-is_masked :
    (p : Pic) (irq line : ℕ)
    → p.master_mask < 256
    → p.slave_mask < 256
    → irq < 16
    → line < 16
    → (is_masked (enable_irq irq p) line ≡ (if irq == line then false else is_masked p line))
      × (is_masked (disable_irq irq p) line ≡ (if irq == line then true else is_masked p line))
unfolding enable_irq disable_irq
enable_irq-is_masked p irq line hm hs hi hl = ground (
  arith,
  bits_cleared irq line p.master_mask,
  bits_cleared (irq - 8) (line - 8) p.slave_mask,
  bits_set irq line p.master_mask,
  bits_set (irq - 8) (line - 8) p.slave_mask,
)
