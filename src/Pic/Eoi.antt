-- ===== src/Pic/Eoi.antt =====
-- Which lines `send_eoi` acknowledges. A specific end of interrupt is the byte 0x60 | line at the
-- controller's command port.
use os.Prelude.{
  ℕ, ◌+◌, ◌-◌, ◌%◌, ◌<◌, ◌≡◌, refl, arith, Bool, true, false, ◌&&◌, ◌||◌, List, [], ◌∷◌, leb, ◌==◌,
  bit_or,
}
use os.Prelude.{all_pass, all_pass_at, ==_iff, Bool-cases, inl, inr}
use os.Pic.{Pic, send_eoi, eoi, master_8259_port, slave_8259_port, mstr_num_irqs}

-- Has `line` been acknowledged at `port` among the writes?
unfoldable pub acknowledged : ℕ → ℕ → List (ℕ × ℕ) → Bool
acknowledged port line [] = false
acknowledged port line ((q, v) ∷ ws) = (q == port && v == eoi + line) || acknowledged port line ws

eoi_table : all_pass 8 (λ line. bit_or eoi line == eoi + line) ≡ true
unfolding all_pass
eoi_table = refl

eoi_byte : (line : ℕ) → line < 8 → bit_or eoi line ≡ eoi + line
eoi_byte line h = (==_iff _ _).0 (all_pass_at 8 (λ k. bit_or eoi k == eoi + k) line eoi_table h)

-- At the slave `send_eoi` acknowledges the line of the slave that was given, and nothing for a line of
-- the master. At the master it acknowledges a line of the master that was given; for a line of the
-- slave it acknowledges line 2, where the slave is, and also the master's line of the slave's number.
pub send_eoi-acknowledged :
    (p : Pic) (irq line : ℕ)
    → p.written ≡ []
    → irq < 16
    → line < 8
    → (acknowledged slave_8259_port line (send_eoi irq p).written
        ≡ (leb mstr_num_irqs irq && irq == line + mstr_num_irqs))
      × (acknowledged master_8259_port line (send_eoi irq p).written
          ≡ (irq % 8 == line || (leb mstr_num_irqs irq && line == 2)))
unfolding send_eoi acknowledged
send_eoi-acknowledged p irq line e hi hl = elim (Bool-cases (leb mstr_num_irqs irq)) [
  | inl slave ↦ rw slave (ground (arith, eoi_byte (irq - mstr_num_irqs)))
  | inr master ↦ rw master (ground (arith, eoi_byte irq))
]
