-- ===== src/Idt/Gates.antt =====
-- What the processor finds in the table.
use os.Prelude.{
  ℕ, zero, suc, ◌+◌, ◌-◌, ◌*◌, ◌/◌, ◌%◌, ◌^◌, ◌<◌, ◌≤◌, ◌≡◌, refl, arith, Bool, true, false, ◌||◌,
  ◌&&◌, not, List, [], ◌∷◌, ltb, ◌==◌, if◌then◌else◌, update, count_up, count_up_writes, in_range,
  ap, ◌∙◌, sym, inl, inr, ◌⊎◌,
}
use mathlib.Core.Path.{subst}
use os.Idt.{
  IdtDesc, Code, Table, assign, exceptions, devices, idt_init, init_entry, num_vec, set_idt_entry,
}

-- The address that an interrupt goes to.
abbrev pub target : IdtDesc → ℕ
target d = d.offset_15_00 + 2 ^ 16 * d.offset_31_16

-- The four bits of the gate's type: 14 is an interrupt gate, which clears the interrupt flag, and 15 a
-- trap gate, which leaves it.
abbrev pub gate_type : IdtDesc → ℕ
gate_type d = d.reserved3 + 2 * d.reserved2 + 4 * d.reserved1 + 8 * d.size

abbrev pub code_at : List Code → ℕ → Code
code_at [] v = Code.exception_user_defined
code_at (c ∷ cs) zero = c
code_at (c ∷ cs) (suc v) = code_at cs v

-- The exceptions of the processor, by their vector.
abbrev pub exception_codes : List Code
exception_codes =
    Code.exception_0_de ∷ Code.exception_1_db ∷ Code.exception_2_nmi ∷ Code.exception_3_bp
    ∷ Code.exception_4_of ∷ Code.exception_5_br ∷ Code.exception_6_ud ∷ Code.exception_7_nm
    ∷ Code.exception_8_df ∷ Code.exception_9_cso ∷ Code.exception_10_ts ∷ Code.exception_11_np
    ∷ Code.exception_12_ss ∷ Code.exception_13_gp ∷ Code.exception_14_pf ∷ Code.exception_15_rs
    ∷ Code.exception_16_mf ∷ Code.exception_17_ac ∷ Code.exception_18_mc ∷ Code.exception_19_xf ∷ []

-- The code for vector `v`: exceptions, then the lines 0, 1 and 8 of the interrupt controllers, which
-- begin at 0x20, and the system call.
abbrev pub code_for : ℕ → Code
code_for v =
    if v == 0x20
    then Code.pit_handler_asm
    else if v == 0x21
    then Code.keyboard_handler_asm
    else if v == 0x28
    then Code.rtc_handler_asm
    else if v == 0x80
    then Code.syscall_asm
    else code_at exception_codes v

-- The vectors that leave interrupts on.
abbrev pub is_trap : ℕ → Bool
is_trap v = v == 0x80 || ltb v 32 && not (v == 2) && not (v == 14)

-- The vectors that a program may raise itself.
abbrev pub is_open : ℕ → Bool
is_open v = v == 0x80 || v == 3 || v == 4 || v == 5

-- A gate for code at `a` with the given type and privilege level.
pub record IsGate (a : ℕ) (kind level : ℕ) (d : IdtDesc) : Type 0 where
  pub goes : target d ≡ a % 2 ^ 32
  pub typed : gate_type d ≡ kind
  pub level_is : d.dpl ≡ level
  pub segment : d.seg_selector ≡ 0x10
  pub here : d.present ≡ 1

-- What is right of vector `v`.
abbrev pub IsRight : (Code → ℕ) → ℕ → IdtDesc → Type 0
IsRight addr v d =
    IsGate (addr (code_for v)) (if is_trap v then 15 else 14) (if is_open v then 3 else 0) d

words : (a : ℕ) → a % 2 ^ 16 + 2 ^ 16 * ((a / 2 ^ 16) % 2 ^ 16) ≡ a % 2 ^ 32
words a = omega arith

-- The exceptions' entries, over the entry that the first loop leaves.
module _ (addr : Code → ℕ) (t : Table) (v : ℕ) (d : IdtDesc) (e : t v ≡ init_entry v d) where
  early_typed : v < 20 → gate_type (assign (exceptions addr) t v) ≡ (if is_trap v then 15 else 14)
  unfolding assign
  early_typed low = ground arith

  early_level : v < 20 → (assign (exceptions addr) t v).dpl ≡ (if is_open v then 3 else 0)
  unfolding assign
  early_level low = ground arith

  early_segment : (assign (exceptions addr) t v).seg_selector ≡ 0x10
  unfolding assign
  early_segment = ground arith

  early_present : (assign (exceptions addr) t v).present ≡ 1
  unfolding assign
  early_present = ground arith

  early_target :
      v < 20 → target (assign (exceptions addr) t v) ≡ addr (code_at exception_codes v) % 2 ^ 32
  unfolding assign
  early_target low = ground arith

  late : 20 ≤ v → assign (exceptions addr) t v ≡ init_entry v d
  unfolding assign
  late high = ground arith

late_code : (v : ℕ) → 20 ≤ v → code_at exception_codes v ≡ Code.exception_user_defined
late_code v high = ground arith

-- The last assignments, and what they find.
module _ (addr : Code → ℕ) (t : Table) (v : ℕ) where
  untouched : v < 20 → assign (devices addr) t v ≡ t v
  unfolding assign
  untouched low = ground arith

  late_gate :
      (d : IdtDesc)
      → 20 ≤ v
      → v < num_vec
      → t v ≡ set_idt_entry (addr Code.exception_user_defined) (init_entry v d)
      → IsRight addr v (assign (devices addr) t v)
  unfolding assign
  late_gate d high low e = record {
    goes = ground (arith, late_code v high);
    typed = ground arith;
    level_is = ground arith;
    segment = ground arith;
    here = ground arith;
  }

early_gate :
    (addr : Code → ℕ) (t : Table) (v : ℕ) (d : IdtDesc)
    → t v ≡ init_entry v d
    → v < 20
    → IsRight addr v (assign (exceptions addr) t v)
early_gate addr t v d e low = record {
  goes = early_target addr t v d e low ∙ ap (λ c. addr c % 2 ^ 32) plain;
  typed = early_typed addr t v d e low;
  level_is = early_level addr t v d e low;
  segment = early_segment addr t v d e;
  here = early_present addr t v d e;
}
  where
    plain : code_at exception_codes v ≡ code_for v
    plain = ground arith

inside : (start n v : ℕ) → start ≤ v → v < start + n → in_range start n v ≡ true
inside start n v low high = ground arith

before : (start n v : ℕ) → v < start → in_range start n v ≡ false
before start n v low = ground arith

small_or_big : (v : ℕ) → (v < 20) ⊎ (20 ≤ v)
small_or_big v = ground arith

-- After `idt_init` every vector leads to its own code: the twenty exceptions, the timer, the keyboard, the
-- clock and the system call, and all others to one handler. Only the system call and the exceptions 3, 4
-- and 5 may be raised by a program, and only the system call and the exceptions up to 31 but 2 and 14
-- leave interrupts on. What the table held before does not matter.
pub idt_init_lem :
    (addr : Code → ℕ) (idt : Table) (v : ℕ) → v < num_vec → IsRight addr v (idt_init addr idt v)
unfolding idt_init
idt_init_lem addr idt v low =
    let begun = λ (i : ℕ) (t : Table). update t i (init_entry i (t i)) in
    let idt1 = count_up num_vec 0 begun idt in
    let first : idt1 v ≡ init_entry v (idt v) =
      count_up_writes init_entry num_vec 0 idt v ∙ rw (inside 0 num_vec v (omega arith) low) refl in
    let user_defined = set_idt_entry (addr Code.exception_user_defined) in
    let idt2 = assign (exceptions addr) idt1 in
    let idt3 = count_up (num_vec - 20) 20 (λ i t. update t i (user_defined (t i))) idt2 in
    let second = count_up_writes (λ i. user_defined) (num_vec - 20) 20 idt2 v in
    elim (small_or_big v) [
      | inl small ↦
          let same : idt3 v ≡ idt2 v = second ∙ rw (before 20 (num_vec - 20) v small) refl in
          subst (IsRight addr v) (sym (untouched addr idt3 v small ∙ same))
            (early_gate addr idt1 v (idt v) first small)
      | inr big ↦
          let changed : idt3 v ≡ user_defined (idt2 v) =
            second ∙ rw (inside 20 (num_vec - 20) v big (omega arith)) refl in
          late_gate addr idt3 v (idt v) big low
            (changed ∙ ap user_defined (late addr idt1 v (idt v) first big))
    ]
