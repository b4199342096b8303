-- ===== src/Entry/Ready.antt =====
-- The lines of `entry` fit what `printf` can print.
use os.Prelude.{ℕ, ◌^◌, ◌<◌, arith, Bytes}
use os.Printf.Pieces.{plains}
use os.Entry.Report.{Build}
use os.Entry.Lines.{
  bad_magic, flags_line, mem_line, boot_device_line, loaded_line, ends_line, few_bytes_line,
  byte_text, new_line, both_set, elf_line, mmap_line, area_line, enabling, page_init_ok,
}
use os.Entry.Printing.{Ready}

module _ (b : Build) (mem : Bytes) where
  pub bad_magic-Ready : (v0 : ℕ) → v0 < 2 ^ 32 → Ready b mem (bad_magic v0)
  unfolding plains
  bad_magic-Ready v0 l0 = (omega arith, omega arith)

  pub flags_line-Ready : (v0 : ℕ) → v0 < 2 ^ 32 → Ready b mem (flags_line v0)
  unfolding plains
  flags_line-Ready v0 l0 = (omega arith, omega arith)

  pub mem_line-Ready : (v0 v1 : ℕ) → v0 < 2 ^ 32 → v1 < 2 ^ 32 → Ready b mem (mem_line v0 v1)
  unfolding plains
  mem_line-Ready v0 v1 l0 l1 = (omega arith, omega arith)

  pub boot_device_line-Ready : (v0 : ℕ) → v0 < 2 ^ 32 → Ready b mem (boot_device_line v0)
  unfolding plains
  boot_device_line-Ready v0 l0 = (omega arith, omega arith)

  pub loaded_line-Ready : (v0 v1 : ℕ) → v0 < 2 ^ 32 → v1 < 2 ^ 32 → Ready b mem (loaded_line v0 v1)
  unfolding plains
  loaded_line-Ready v0 v1 l0 l1 = (omega arith, omega arith)

  pub ends_line-Ready : (v0 v1 : ℕ) → v0 < 2 ^ 32 → v1 < 2 ^ 32 → Ready b mem (ends_line v0 v1)
  unfolding plains
  ends_line-Ready v0 v1 l0 l1 = (omega arith, omega arith)

  pub few_bytes_line-Ready : Ready b mem few_bytes_line
  unfolding plains
  few_bytes_line-Ready = (omega arith, omega arith)

  pub byte_text-Ready : (v0 : ℕ) → v0 < 2 ^ 32 → Ready b mem (byte_text v0)
  unfolding plains
  byte_text-Ready v0 l0 = (omega arith, omega arith)

  pub new_line-Ready : Ready b mem new_line
  unfolding plains
  new_line-Ready = (omega arith, omega arith)

  pub both_set-Ready : Ready b mem both_set
  unfolding plains
  both_set-Ready = (omega arith, omega arith)

  pub elf_line-Ready :
      (v0 v1 v2 v3 : ℕ)
      → v0 < 2 ^ 32
      → v1 < 2 ^ 32
      → v2 < 2 ^ 32
      → v3 < 2 ^ 32
      → Ready b mem (elf_line v0 v1 v2 v3)
  unfolding plains
  elf_line-Ready v0 v1 v2 v3 l0 l1 l2 l3 = (omega arith, omega arith)

  pub mmap_line-Ready : (v0 v1 : ℕ) → v0 < 2 ^ 32 → v1 < 2 ^ 32 → Ready b mem (mmap_line v0 v1)
  unfolding plains
  mmap_line-Ready v0 v1 l0 l1 = (omega arith, omega arith)

  pub area_line-Ready :
      (v0 v1 v2 v3 v4 v5 : ℕ)
      → v0 < 2 ^ 32
      → v1 < 2 ^ 32
      → v2 < 2 ^ 32
      → v3 < 2 ^ 32
      → v4 < 2 ^ 32
      → v5 < 2 ^ 32
      → Ready b mem (area_line v0 v1 v2 v3 v4 v5)
  unfolding plains
  area_line-Ready v0 v1 v2 v3 v4 v5 l0 l1 l2 l3 l4 l5 = (omega arith, omega arith)

  pub enabling-Ready : Ready b mem enabling
  unfolding plains
  enabling-Ready = (omega arith, omega arith)

  pub page_init_ok-Ready : Ready b mem page_init_ok
  unfolding plains
  page_init_ok-Ready = (omega arith, omega arith)
