-- ===== src/Cpu/Cop1.antt =====
-- The control registers of the floating-point unit: crates/rustyn64-cpu/src/cop1.rs.
use rusty_n.Base.{ℕ, ◌^◌, bit_and, Bool, ◌==◌, if◌then◌else◌, any_set, shr}

abbrev pub fcr0_revision : ℕ
fcr0_revision = 0x0a00

abbrev pub fcsr_mask : ℕ
fcsr_mask = 0x0183_ffff

pub record Cop1Control : Type 0 where
  pub fcsr : ℕ

pub new : Cop1Control
new = record { fcsr = 0 }

pub cfc1 : Cop1Control → ℕ → ℕ
cfc1 c fs = if fs == 0 then fcr0_revision else if fs == 31 then c.fcsr else 0

pub ctc1 : Cop1Control → ℕ → ℕ → Cop1Control
ctc1 c fs value = if fs == 31 then record { fcsr = bit_and value fcsr_mask } else c

pub flush_denorm_to_zero : Cop1Control → Bool
flush_denorm_to_zero c = any_set c.fcsr (2 ^ 24)

pub rounding_mode : Cop1Control → ℕ
rounding_mode c = bit_and c.fcsr 3

pub enables : Cop1Control → ℕ
enables c = bit_and (shr c.fcsr 7) 0x1f
