-- ===== src/Cart/Pif/Boot.antt =====
-- The boot handshake: `boot_command` of crates/rustyn64-cart/src/pif.rs.
use rusty_n.Base.{ℕ, ◌<◌, ◌≡◌, ◌↔◌, refl, ap, ap₂, ◌∙◌, sym, arith, bit_and, bit_or}
use rusty_n.Base.{Bool, true, false, not, List, [], ◌∷◌, some}
use rusty_n.Base.{
  get_or, set, length, replicate, read_block, write_block, length-set, length-write_block,
  length-replicate, get_or-set_self, if_keeps, bit-bit_or, bit-lt-two, any_set, any_set_pow,
  read_block-write_block,
}
use rusty_n.Cart.Pif.{
  Pif, boot_command, lock, acquire, compare_checksum, mismatch, same_bytes, has_boot_rom, write,
  read, cmd_byte, pif_ram_len,
}
use rusty_n.Cart.Save.RoundTrip.{read_block_apart}

pub same_bytes_iff : (xs ys : List ℕ) → (same_bytes xs ys ≡ true) ↔ (xs ≡ ys)
unfolding same_bytes
same_bytes_iff [] [] = (λ h. refl, λ h. refl)
same_bytes_iff [] (y ∷ ys) = (λ h. absurd (ground arith), λ h. absurd (ground arith))
same_bytes_iff (x ∷ xs) [] = (λ h. absurd (ground arith), λ h. absurd (ground arith))
same_bytes_iff (x ∷ xs) (y ∷ ys) =
    let rest = same_bytes_iff xs ys in (λ h. ground (arith, rest), λ h. ground (arith, rest))

-- What a command leaves of the boot state, before its checksum is looked at.
record Keeps (p q : Pif) : Type 0 where
  size : length q.ram ≡ length p.ram
  rom : has_boot_rom q ≡ has_boot_rom p
  expected : q.boot_checksum ≡ p.boot_checksum
  acquired : q.boot_acquired ≡ p.boot_acquired
  bytes : read_block q.ram 0x32 6 0 ≡ read_block p.ram 0x32 6 0

set_command :
    (ram : List ℕ) (v : ℕ) → read_block (set ram cmd_byte v) 0x32 6 0 ≡ read_block ram 0x32 6 0
unfolding write_block
set_command ram v = read_block_apart ram (v ∷ []) cmd_byte 0x32 6 (omega arith)

lock-Keeps : (p : Pif) (cmd : ℕ) → Keeps p (lock p cmd)
unfolding lock has_boot_rom
lock-Keeps p cmd =
    if_keeps (λ (q : Pif). Keeps p q) (any_set cmd 0x10) _ p
      (record {
        size = length-set p.ram cmd_byte _;
        rom = refl;
        expected = refl;
        acquired = refl;
        bytes = set_command p.ram _;
      })
      (record { size = refl; rom = refl; expected = refl; acquired = refl; bytes = refl })

asks :
    (p : Pif)
    → has_boot_rom p ≡ true
    → any_set (get_or p.ram cmd_byte 0) 0x40 ≡ false
    → boot_command p ≡ (acquire (lock p (get_or p.ram cmd_byte 0)) (get_or p.ram cmd_byte 0), false)
unfolding boot_command compare_checksum
asks p rom off = rw (rom, off) refl

compares :
    (p : Pif) (cmd : ℕ)
    → get_or p.ram cmd_byte 0 ≡ cmd
    → has_boot_rom p ≡ true
    → any_set cmd 0x20 ≡ false
    → any_set cmd 0x40 ≡ true
    → (boot_command p).1 ≡ mismatch p.boot_acquired p.boot_checksum
unfolding boot_command compare_checksum acquire
compares p cmd e rom off on =
    let k = lock-Keeps p cmd in rw (e, rom, off, on) (ap₂ mismatch k.acquired k.expected)

-- What the request for the checksum leaves: the checksum taken over and zeroed, and the answer.
record Acquired (p q : Pif) : Type 0 where
  size : length q.ram ≡ length p.ram
  rom : has_boot_rom q ≡ has_boot_rom p
  expected : q.boot_checksum ≡ p.boot_checksum
  acquired : q.boot_acquired ≡ some (read_block p.ram 0x32 6 0)
  zeroed : read_block q.ram 0x32 6 0 ≡ replicate 6 0
  answered : any_set (get_or q.ram cmd_byte 0) 0x80 ≡ true

mismatch_lem :
    (got expected : List ℕ) → mismatch (some got) (some expected) ≡ not (same_bytes got expected)
unfolding mismatch
mismatch_lem got expected = refl

flagged : (x : ℕ) → any_set (bit_or x 0x80) 0x80 ≡ true
flagged x = ground (arith, any_set_pow 7 (bit_or x 0x80), bit-bit_or 7 x 0x80, bit-lt-two 7 x)

abbrev zeros : List ℕ
zeros = replicate 6 0

acquire_lem :
    (p : Pif) (cmd : ℕ)
    → length p.ram ≡ pif_ram_len
    → any_set cmd 0x20 ≡ true
    → Acquired p (acquire p cmd)
unfolding acquire has_boot_rom
acquire_lem p cmd e on =
    let zeroed = write_block p.ram 0x32 zeros in
    let size = length-write_block zeros p.ram 0x32 in
    let six : length zeros ≡ 6 = length-replicate 6 0 in
    let v = bit_or (bit_and (get_or zeroed cmd_byte 0) 0xdf) 0x80 in
    rw on (record {
      size = length-set zeroed cmd_byte v ∙ size;
      rom = refl;
      expected = refl;
      acquired = refl;
      zeroed =
          set_command zeroed v
          ∙ (ap (λ (n : ℕ). read_block zeroed 0x32 n 0) (sym six)
              ∙ read_block-write_block zeros p.ram 0x32 0 (omega (arith, six)));
      answered =
          ap (λ (x : ℕ). any_set x 0x80) (get_or-set_self zeroed cmd_byte v 0 (omega (arith, size)))
          ∙ flagged (bit_and (get_or zeroed cmd_byte 0) 0xdf);
    })

-- With a boot ROM and an expected checksum, a request for the checksum that does not yet ask for the
-- comparison asks for no halt, zeroes the six bytes and answers; and a later request for the
-- comparison alone asks for no halt exactly if the six bytes were the expected ones.
pub boot_command_verdict :
    (p : Pif) (expected : List ℕ) (b : ℕ)
    → length p.ram ≡ pif_ram_len
    → has_boot_rom p ≡ true
    → p.boot_checksum ≡ some expected
    → any_set (read p cmd_byte) 0x20 ≡ true
    → any_set (read p cmd_byte) 0x40 ≡ false
    → any_set b 0x20 ≡ false
    → any_set b 0x40 ≡ true
    → ((boot_command p).1 ≡ false)
      × (read_block (boot_command p).0.ram 0x32 6 0 ≡ replicate 6 0)
      × (any_set (read (boot_command p).0 cmd_byte) 0x80 ≡ true)
      × (((boot_command (write (boot_command p).0 cmd_byte b)).1 ≡ false)
          ↔ (read_block p.ram 0x32 6 0 ≡ expected))
unfolding read write has_boot_rom
boot_command_verdict p expected b e rom known on off clear compare =
    let cmd = get_or p.ram cmd_byte 0 in
    let locked = lock p cmd in
    let k = lock-Keeps p cmd in
    let q = acquire locked cmd in
    let a = acquire_lem locked cmd (k.size ∙ e) on in
    let first = asks p rom off in
    let room : cmd_byte < length q.ram = omega (arith, a.size, k.size) in
    let second =
      compares (record q { ram = set q.ram cmd_byte b }) b (get_or-set_self q.ram cmd_byte b 0 room)
        (a.rom ∙ (k.rom ∙ rom)) clear compare in
    let verdict : (boot_command (write (boot_command p).0 cmd_byte b)).1
        ≡ not (same_bytes (read_block p.ram 0x32 6 0) expected) =
      ap (λ (r : Pif × Bool). (boot_command (record r.0 { ram = set r.0.ram cmd_byte b })).1) first
      ∙ (second
          ∙ (ap₂ mismatch (a.acquired ∙ ap some k.bytes) (a.expected ∙ (k.expected ∙ known))
              ∙ mismatch_lem (read_block p.ram 0x32 6 0) expected)) in
    let same = same_bytes_iff (read_block p.ram 0x32 6 0) expected in
    (
      ap (λ (r : Pif × Bool). r.1) first,
      ap (λ (r : Pif × Bool). read_block r.0.ram 0x32 6 0) first ∙ a.zeroed,
      ap (λ (r : Pif × Bool). any_set (get_or r.0.ram cmd_byte 0) 0x80) first ∙ a.answered,
      (λ h. same.0 (ground (arith, verdict)), λ h. verdict ∙ ap not (same.1 h)),
    )
