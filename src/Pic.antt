-- ===== src/Pic.antt =====
-- student-distrib/i8259.c and i8259.h: the two interrupt controllers.
pub mod Masks
pub mod Eoi
mod Tests
use os.Prelude.{ℕ, ◌+◌, ◌-◌, ◌^◌, List, [], ◌∷◌, ltb, leb, if◌then◌else◌, u8, bit_and, bit_or}

abbrev pub mstr_num_irqs : ℕ
mstr_num_irqs = 8

abbrev pub master_8259_port : ℕ
master_8259_port = 0x20

abbrev pub slave_8259_port : ℕ
slave_8259_port = 0xA0

abbrev pub master_data_port : ℕ
master_data_port = 0x21

abbrev pub slave_data_port : ℕ
slave_data_port = 0xA1

abbrev pub eoi : ℕ
eoi = 0x60

-- The global masks, and the bytes written to the ports, the last one first: port and value.
pub record Pic : Type 0 where
  pub master_mask : ℕ
  pub slave_mask : ℕ
  pub written : List (ℕ × ℕ)

abbrev pub outb : ℕ → ℕ → Pic → Pic
outb value port p = record p { written = (port, value) ∷ p.written }

unfoldable pub i8259_init : Pic → Pic
i8259_init p =
    let p0 = record p { master_mask = 0xFB; slave_mask = 0xFF } in
    let p1 = outb 0x11 slave_8259_port (outb 0x11 master_8259_port p0) in
    let p2 = outb 0x28 slave_data_port (outb 0x20 master_data_port p1) in
    let p3 = outb 0x02 slave_data_port (outb 0x04 master_data_port p2) in
    let p4 = outb 0x01 slave_data_port (outb 0x01 master_data_port p3) in
    outb 0xFF slave_data_port (outb 0xFB master_data_port p4)

-- mask & ~(1 << n) and mask | (1 << n), as bytes
abbrev pub clear_bit : ℕ → ℕ → ℕ
clear_bit mask n = u8 (bit_and mask (2 ^ 32 - 1 - 2 ^ n))

abbrev pub set_bit : ℕ → ℕ → ℕ
set_bit mask n = u8 (bit_or mask (2 ^ n))

unfoldable pub enable_irq : ℕ → Pic → Pic
enable_irq irq_num p =
    if ltb irq_num mstr_num_irqs
    then (let value = clear_bit p.master_mask irq_num in
        outb value master_data_port (record p { master_mask = value }))
    else let value = clear_bit p.slave_mask (irq_num - mstr_num_irqs) in
      outb value slave_data_port (record p { slave_mask = value })

unfoldable pub disable_irq : ℕ → Pic → Pic
disable_irq irq_num p =
    if ltb irq_num mstr_num_irqs
    then (let value = set_bit p.master_mask irq_num in
        outb value master_data_port (record p { master_mask = value }))
    else let value = set_bit p.slave_mask (irq_num - mstr_num_irqs) in
      outb value slave_data_port (record p { slave_mask = value })

-- For a slave line `irq_num` is the slave's own number from the branch on, also in the last write.
unfoldable pub send_eoi : ℕ → Pic → Pic
send_eoi irq_num p =
    let slave = leb mstr_num_irqs irq_num in
    let line = if slave then irq_num - mstr_num_irqs else irq_num in
    let p' =
      if slave
      then outb (bit_or eoi 2) master_8259_port (outb (bit_or eoi line) slave_8259_port p)
      else p in
    outb (bit_or eoi line) master_8259_port p'
