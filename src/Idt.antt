-- ===== src/Idt.antt =====
-- student-distrib/idt.c and the descriptors of x86_desc.h: the interrupt descriptor table.
pub mod Gates
pub mod Exceptions
mod Tests
use os.Prelude.{
  ℕ, ◌+◌, ◌-◌, ◌*◌, ◌/◌, ◌%◌, ◌^◌, List, [], ◌∷◌, ltb, ◌==◌, if◌then◌else◌, update, count_up,
}

abbrev pub num_vec : ℕ
num_vec = 256

abbrev pub system_call : ℕ
system_call = 0x80

abbrev pub kernal_seg : ℕ
kernal_seg = 0x10

abbrev pub arch_defined : ℕ
arch_defined = 32

abbrev pub low_dpl : ℕ
low_dpl = 3

-- `idt_desc_t`, field by field.
pub record IdtDesc : Type 0 where
  pub offset_15_00 : ℕ
  pub seg_selector : ℕ
  pub reserved4 : ℕ
  pub reserved3 : ℕ
  pub reserved2 : ℕ
  pub reserved1 : ℕ
  pub size : ℕ
  pub reserved0 : ℕ
  pub dpl : ℕ
  pub present : ℕ
  pub offset_31_16 : ℕ

-- The code that the table refers to; where the linker puts it is a parameter.
pub data Code : Type 0 where
  exception_0_de : Code
  exception_1_db : Code
  exception_2_nmi : Code
  exception_3_bp : Code
  exception_4_of : Code
  exception_5_br : Code
  exception_6_ud : Code
  exception_7_nm : Code
  exception_8_df : Code
  exception_9_cso : Code
  exception_10_ts : Code
  exception_11_np : Code
  exception_12_ss : Code
  exception_13_gp : Code
  exception_14_pf : Code
  exception_15_rs : Code
  exception_16_mf : Code
  exception_17_ac : Code
  exception_18_mc : Code
  exception_19_xf : Code
  exception_user_defined : Code
  keyboard_handler_asm : Code
  rtc_handler_asm : Code
  pit_handler_asm : Code
  syscall_asm : Code

abbrev pub Table : Type 0
Table = ℕ → IdtDesc

-- SET_IDT_ENTRY
abbrev pub set_idt_entry : ℕ → IdtDesc → IdtDesc
set_idt_entry handler str = record str {
  offset_31_16 = (handler / 2 ^ 16) % 2 ^ 16;
  offset_15_00 = handler % 2 ^ 16;
}

-- The body of the first loop.
abbrev pub init_entry : ℕ → IdtDesc → IdtDesc
init_entry i d = record d {
  seg_selector = kernal_seg;
  reserved4 = 0;
  reserved3 = if ltb i arch_defined then 1 else 0;
  reserved2 = 1;
  reserved1 = 1;
  size = 1;
  reserved0 = 0;
  dpl = if i == system_call then low_dpl else 0;
  present = 1;
}

-- Assignments to the entries, in the order of the list.
unfoldable pub assign : List (ℕ × (IdtDesc → IdtDesc)) → Table → Table
assign [] idt = idt
assign ((i, change) ∷ rest) idt = assign rest (update idt i (change (idt i)))

abbrev pub interrupt_gate : IdtDesc → IdtDesc
interrupt_gate d = record d { reserved3 = 0 }

abbrev pub trap_gate : IdtDesc → IdtDesc
trap_gate d = record d { reserved3 = 1 }

abbrev pub for_users : IdtDesc → IdtDesc
for_users d = record d { dpl = low_dpl }

-- The assignments between the two loops.
abbrev pub exceptions : (Code → ℕ) → List (ℕ × (IdtDesc → IdtDesc))
exceptions addr =
    (0, set_idt_entry (addr exception_0_de))
    ∷ (1, set_idt_entry (addr exception_1_db))
    ∷ (2, interrupt_gate)
    ∷ (2, set_idt_entry (addr exception_2_nmi))
    ∷ (3, for_users)
    ∷ (3, set_idt_entry (addr exception_3_bp))
    ∷ (4, for_users)
    ∷ (4, set_idt_entry (addr exception_4_of))
    ∷ (5, for_users)
    ∷ (5, set_idt_entry (addr exception_5_br))
    ∷ (6, set_idt_entry (addr exception_6_ud))
    ∷ (7, set_idt_entry (addr exception_7_nm))
    ∷ (8, set_idt_entry (addr exception_8_df))
    ∷ (9, set_idt_entry (addr exception_9_cso))
    ∷ (10, set_idt_entry (addr exception_10_ts))
    ∷ (11, set_idt_entry (addr exception_11_np))
    ∷ (12, set_idt_entry (addr exception_12_ss))
    ∷ (13, set_idt_entry (addr exception_13_gp))
    ∷ (14, interrupt_gate)
    ∷ (14, set_idt_entry (addr exception_14_pf))
    ∷ (15, set_idt_entry (addr exception_15_rs))
    ∷ (16, set_idt_entry (addr exception_16_mf))
    ∷ (17, set_idt_entry (addr exception_17_ac))
    ∷ (18, set_idt_entry (addr exception_18_mc))
    ∷ (19, set_idt_entry (addr exception_19_xf))
    ∷ []

-- The assignments after the second loop.
abbrev pub devices : (Code → ℕ) → List (ℕ × (IdtDesc → IdtDesc))
devices addr =
    (0x21, set_idt_entry (addr keyboard_handler_asm))
    ∷ (0x28, set_idt_entry (addr rtc_handler_asm))
    ∷ (0x20, set_idt_entry (addr pit_handler_asm))
    ∷ (system_call, trap_gate)
    ∷ (system_call, set_idt_entry (addr syscall_asm))
    ∷ []

unfoldable pub idt_init : (Code → ℕ) → Table → Table
unfolding assign
idt_init addr idt =
    let idt1 = count_up num_vec 0 (λ i t. update t i (init_entry i (t i))) idt in
    let idt2 = assign (exceptions addr) idt1 in
    let user_defined = set_idt_entry (addr exception_user_defined) in
    assign (devices addr) (count_up (num_vec - 20) 20 (λ i t. update t i (user_defined (t i))) idt2)
