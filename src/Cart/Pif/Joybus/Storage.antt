-- ===== src/Cart/Pif/Joybus/Storage.antt =====
-- The answers of the storage devices: the Controller Pak's and the EEPROM's commands of `run_channel`
-- of crates/rustyn64-cart/src/pif.rs.
use rusty_n.Base.{ℕ, ◌+◌, ◌-◌, ◌*◌, ◌%◌, ◌≤◌, ◌<◌, ◌≡◌, refl, ap, ◌∙◌, sym, arith, min}
use rusty_n.Base.{true, false, List, [], ◌∷◌}
use rusty_n.Base.{
  if◌then◌else◌, ◌==◌, ltb, leb, get_or, set, length, replicate, read_block, write_block, if_keeps,
}
use rusty_n.Base.{
  length-write_block, length-read_block, get_or-set_self, length-replicate, read_block-write_block,
  read_block_whole,
}
use rusty_n.Cart.Pif.{Pif, data_crc}
use rusty_n.Cart.Pif.Joybus.{
  Frame, run_channel, pak_read, eeprom_read, eeprom_write, run_cartridge, pak_block, pak_address,
  pak_crc, is_eeprom,
}
use rusty_n.Cart.Save.{SaveDevice, eeprom_read_block, eeprom_write_block}
use rusty_n.Cart.Save.RoundTrip.{
  read_block_apart, eeprom_read-write, length-cpak_read, eeprom_write_lem,
}

length-pak_block : (p : Pif) (f : Frame) (save : SaveDevice) → length (pak_block p f save) ≡ 32
unfolding pak_block
length-pak_block p f save =
    let zeros = length-replicate 32 0 in
    if_keeps (λ (b : List ℕ). length b ≡ 32) (get_or p.pak_present f.channel false) _ _
      (length-cpak_read save (pak_address p f) (replicate 32 0) zeros) zeros

-- A block, and a byte behind it.
block_then_byte :
    (ram block : List ℕ) (at v : ℕ)
    → length block ≡ 32
    → at + 33 ≤ length ram
    → (read_block (set (write_block ram at block) (at + 32) v) at 32 0 ≡ block)
      × (get_or (set (write_block ram at block) (at + 32) v) (at + 32) 0 ≡ v)
unfolding write_block
block_then_byte ram block at v e fits =
    let copied = write_block ram at block in
    (
      read_block_apart copied (v ∷ []) (at + 32) at 32 (omega arith)
          ∙ (ap (λ (n : ℕ). read_block copied at n 0) (sym e)
              ∙ read_block-write_block block ram at 0 (omega arith)),
      get_or-set_self copied (at + 32) v 0 (omega (arith, length-write_block block ram at)),
    )

pak_read_lem :
    (p : Pif) (f : Frame) (save : SaveDevice)
    → 33 ≤ f.rx_len
    → let block = pak_block p f save in
      (pak_read p f save).ram
      ≡ set (write_block p.ram f.resp block) (f.resp + 32) (pak_crc p f.channel block)
unfolding pak_read
pak_read_lem p f save room =
    let block = pak_block p f save in
    let long : leb 33 f.rx_len ≡ true = ground arith in
    let full : min f.rx_len 32 ≡ 32 = omega arith in
    rw long (
      ap
        (λ (b : List ℕ). set (write_block p.ram f.resp b) (f.resp + 32) (pak_crc p f.channel block))
        (ap (λ (n : ℕ). read_block block 0 n 0) full
          ∙ read_block_whole block 32 0 (length-pak_block p f save)))

-- A read of at least 33 bytes from a Controller Pak port, within the RAM, answers with 32 bytes and
-- their checksum; where no pak is in the port the checksum is complemented.
pub pak_read-data_crc :
    (p : Pif) (f : Frame) (save : SaveDevice)
    → 33 ≤ f.rx_len
    → f.resp + 33 ≤ length p.ram
    → get_or (pak_read p f save).ram (f.resp + 32) 0 ≡ (
        if get_or p.pak_present f.channel false
        then data_crc (read_block (pak_read p f save).ram f.resp 32 0)
        else 255 - data_crc (read_block (pak_read p f save).ram f.resp 32 0))
pak_read-data_crc p f save room fits =
    let block = pak_block p f save in
    let e = pak_read_lem p f save room in
    let b =
      block_then_byte p.ram block f.resp (pak_crc p f.channel block) (length-pak_block p f save)
        fits in
    ap (λ (ram : List ℕ). get_or ram (f.resp + 32) 0) e
    ∙ (b.1
        ∙ ap (λ (bytes : List ℕ). pak_crc p f.channel bytes)
            (sym (ap (λ (ram : List ℕ). read_block ram f.resp 32 0) e ∙ b.0)))

cartridge_write :
    (p : Pif) (f : Frame) (cs : List ℕ) (save : SaveDevice)
    → f.channel ≡ 4
    → get_or p.ram f.cmd 0 ≡ 5
    → 10 ≤ f.tx_len
    → is_eeprom save ≡ true
    → (run_channel p f cs save).1
      ≡ eeprom_write_block save (get_or p.ram (f.cmd + 1) 0) (read_block p.ram (f.cmd + 2) 8 0)
unfolding run_channel run_cartridge eeprom_write
cartridge_write p f cs save c w t e = ground arith

cartridge_read :
    (p : Pif) (f : Frame) (cs : List ℕ) (save : SaveDevice)
    → f.channel ≡ 4
    → get_or p.ram f.cmd 0 ≡ 4
    → 2 ≤ f.tx_len
    → 8 ≤ f.rx_len
    → is_eeprom save ≡ true
    → (run_channel p f cs save).0.ram
      ≡ write_block p.ram f.resp
          (read_block (eeprom_read_block save (get_or p.ram (f.cmd + 1) 0) (replicate 8 0)) 0 8 0)
unfolding run_channel run_cartridge eeprom_read
cartridge_read p f cs save c w t r e = ground arith

-- On an EEPROM of whole blocks, the 8 bytes that a write command stores in a block are the answer of a
-- later read command for that block, in the same RAM or another.
pub eeprom_frames :
    (p q : Pif) (f g : Frame) (cs ds store : List ℕ)
    → (f.channel ≡ 4) × ((get_or p.ram f.cmd 0 ≡ 5) × (10 ≤ f.tx_len))
    → (g.channel ≡ 4) × ((get_or q.ram g.cmd 0 ≡ 4) × ((2 ≤ g.tx_len) × (8 ≤ g.rx_len)))
    → g.resp + 8 ≤ length q.ram
    → get_or q.ram (g.cmd + 1) 0 ≡ get_or p.ram (f.cmd + 1) 0
    → length store % 8 ≡ 0
    → get_or p.ram (f.cmd + 1) 0 * 8 < length store
    → read_block
        (run_channel q g ds (run_channel p f cs (SaveDevice.eeprom store)).1).0.ram
        g.resp
        8
        0
      ≡ read_block p.ram (f.cmd + 2) 8 0
eeprom_frames p q f g cs ds store (c1, (w1, t1)) (c2, (w2, (t2, r2))) fits same whole inside =
    let b = get_or p.ram (f.cmd + 1) 0 in
    let bytes = read_block p.ram (f.cmd + 2) 8 0 in
    let saved = eeprom_write_block (SaveDevice.eeprom store) b bytes in
    let size = length-read_block 8 p.ram (f.cmd + 2) 0 in
    let kind : is_eeprom saved ≡ true = ap is_eeprom (eeprom_write_lem store b bytes) in
    let same_block : (b == get_or q.ram (g.cmd + 1) 0) ≡ true = ground arith in
    let in_store : ltb (b * 8) (length store) ≡ true = ground arith in
    let found : eeprom_read_block saved (get_or q.ram (g.cmd + 1) 0) (replicate 8 0) ≡ bytes =
      eeprom_read-write store bytes (replicate 8 0) b (get_or q.ram (g.cmd + 1) 0) whole size
      ∙ ground arith in
    ap (λ (d : SaveDevice). read_block (run_channel q g ds d).0.ram g.resp 8 0)
      (cartridge_write p f cs (SaveDevice.eeprom store) c1 w1 t1 refl)
    ∙ (ap (λ (ram : List ℕ). read_block ram g.resp 8 0)
          (cartridge_read q g ds saved c2 w2 t2 r2 kind)
        ∙ (ap
              (λ (x : List ℕ).
                read_block (write_block q.ram g.resp (read_block x 0 8 0)) g.resp 8 0)
              found
            ∙ (ap (λ (x : List ℕ). read_block (write_block q.ram g.resp x) g.resp 8 0)
                  (read_block_whole bytes 8 0 size)
                ∙ (ap (λ (n : ℕ). read_block (write_block q.ram g.resp bytes) g.resp n 0) (sym size)
                    ∙ read_block-write_block bytes q.ram g.resp 0 (omega arith)))))
