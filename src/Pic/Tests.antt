-- ===== src/Pic/Tests.antt =====
-- Examples of the interrupt controllers.
use os.Prelude.{◌+◌, ◌%◌, ◌≡◌, refl, arith, ◌&&◌, ◌||◌, [], leb, ◌==◌}
use os.Pic.{Pic, send_eoi, master_8259_port, slave_8259_port, mstr_num_irqs}
use os.Pic.Eoi.{acknowledged, send_eoi-acknowledged}

-- What `i8259_init` leaves in the masks.
abbrev booted : Pic
booted = record { master_mask = 0xFB; slave_mask = 0xFF; written = [] }

-- The end of a clock interrupt, at line 0 of both controllers.
send_eoi-acknowledged_example :
    (acknowledged slave_8259_port 0 (send_eoi 8 booted).written
      ≡ (leb mstr_num_irqs 8 && 8 == 0 + mstr_num_irqs))
    × (acknowledged master_8259_port 0 (send_eoi 8 booted).written
        ≡ (8 % 8 == 0 || (leb mstr_num_irqs 8 && 0 == 2)))
send_eoi-acknowledged_example = send_eoi-acknowledged booted 8 0 refl (omega arith) (omega arith)
