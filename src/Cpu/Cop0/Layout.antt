-- ===== src/Cpu/Cop0/Layout.antt =====
-- The numbers of the registers, and the bits that a write changes: crates/rustyn64-cpu/src/cop0.rs.
use rusty_n.Base.{ℕ, bit_and}
use rusty_n.Base.{Bool, ◌||◌}
use rusty_n.Base.{◌==◌, if◌then◌else◌}

abbrev pub reg_index : ℕ
reg_index = 0

abbrev pub reg_random : ℕ
reg_random = 1

abbrev pub reg_entry_lo0 : ℕ
reg_entry_lo0 = 2

abbrev pub reg_entry_lo1 : ℕ
reg_entry_lo1 = 3

abbrev pub reg_context : ℕ
reg_context = 4

abbrev pub reg_page_mask : ℕ
reg_page_mask = 5

abbrev pub reg_wired : ℕ
reg_wired = 6

abbrev pub reg_bad_vaddr : ℕ
reg_bad_vaddr = 8

abbrev pub reg_count : ℕ
reg_count = 9

abbrev pub reg_entry_hi : ℕ
reg_entry_hi = 10

abbrev pub reg_compare : ℕ
reg_compare = 11

abbrev pub reg_status : ℕ
reg_status = 12

abbrev pub reg_cause : ℕ
reg_cause = 13

abbrev pub reg_epc : ℕ
reg_epc = 14

abbrev pub reg_prid : ℕ
reg_prid = 15

abbrev pub reg_config : ℕ
reg_config = 16

abbrev pub reg_ll_addr : ℕ
reg_ll_addr = 17

abbrev pub reg_watch_lo : ℕ
reg_watch_lo = 18

abbrev pub reg_watch_hi : ℕ
reg_watch_hi = 19

abbrev pub reg_xcontext : ℕ
reg_xcontext = 20

abbrev pub reg_perr : ℕ
reg_perr = 26

abbrev pub reg_tag_lo : ℕ
reg_tag_lo = 28

abbrev pub reg_error_epc : ℕ
reg_error_epc = 30

-- The registers that MTC0 sign-extends into.
pub is_wide : ℕ → Bool
is_wide n =
    let r = bit_and n 31 in
    r == reg_entry_lo0
    || (r == reg_entry_lo1
        || (r == reg_context
            || (r == reg_bad_vaddr
                || (r == reg_entry_hi
                    || (r == reg_epc || (r == reg_xcontext || (r == reg_error_epc)))))))

-- The bits that software can write, register by register.
unfoldable pub write_mask : ℕ → ℕ
write_mask n =
    if n == reg_index
    then 0x8000_003f
    else if n == reg_entry_lo0
    then 0x3fff_ffff
    else if n == reg_entry_lo1
    then 0x3fff_ffff
    else if n == reg_context
    then 0xffff_ffff_ff80_0000
    else if n == reg_page_mask
    then 0x01ff_e000
    else if n == reg_wired
    then 0x3f
    else if n == reg_count
    then 0xffff_ffff
    else if n == reg_entry_hi
    then 0xc000_00ff_ffff_e0ff
    else if n == reg_compare
    then 0xffff_ffff
    else if n == reg_status
    then 0xff57_ffff
    else if n == reg_cause
    then 0x0000_0300
    else if n == reg_epc
    then 0xffff_ffff_ffff_ffff
    else if n == reg_config
    then 0x0f00_800f
    else if n == reg_ll_addr
    then 0xffff_ffff
    else if n == reg_watch_lo
    then 0xffff_fffb
    else if n == reg_watch_hi
    then 0xf
    else if n == reg_xcontext
    then 0xffff_fffe_0000_0000
    else if n == reg_perr
    then 0xff
    else if n == reg_tag_lo
    then 0x0fff_ffc0
    else if n == reg_error_epc
    then 0xffff_ffff_ffff_ffff
    else 0

-- The bits that exist, register by register.
unfoldable pub arch_mask : ℕ → ℕ
arch_mask n =
    if n == reg_index
    then 0x8000_003f
    else if n == reg_random
    then 0x3f
    else if n == reg_entry_lo0
    then 0x3fff_ffff
    else if n == reg_entry_lo1
    then 0x3fff_ffff
    else if n == reg_context
    then 0xffff_ffff_ffff_fff0
    else if n == reg_page_mask
    then 0x01ff_e000
    else if n == reg_wired
    then 0x3f
    else if n == reg_bad_vaddr
    then 0xffff_ffff_ffff_ffff
    else if n == reg_count
    then 0xffff_ffff
    else if n == reg_entry_hi
    then 0xc000_00ff_ffff_e0ff
    else if n == reg_compare
    then 0xffff_ffff
    else if n == reg_status
    then 0xff77_ffff
    else if n == reg_cause
    then 0xb000_ff7c
    else if n == reg_epc
    then 0xffff_ffff_ffff_ffff
    else if n == reg_prid
    then 0xffff
    else if n == reg_config
    then 0x0f00_800f
    else if n == reg_ll_addr
    then 0xffff_ffff
    else if n == reg_watch_lo
    then 0xffff_fffb
    else if n == reg_watch_hi
    then 0xf
    else if n == reg_xcontext
    then 0xffff_ffff_ffff_fff0
    else if n == reg_perr
    then 0xff
    else if n == reg_tag_lo
    then 0x0fff_ffc0
    else if n == reg_error_epc
    then 0xffff_ffff_ffff_ffff
    else 0
