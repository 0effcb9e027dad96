-- ===== src/Cart/Pif/Joybus/Answers.antt =====
-- What a command of the joybus changes: `run_channel` of crates/rustyn64-cart/src/pif.rs.
use rusty_n.Base.{ℕ, ◌+◌, ◌≤◌, ◌<◌, ◌≡◌, ◌≢◌, refl, ap, ◌∙◌, arith, bit_or, min, ◌⊎◌, inl}
use rusty_n.Base.{Bool, true, false, ◌&&◌, ◌||◌, List}
use rusty_n.Base.{
  if◌then◌else◌, ◌==◌, ltb, leb, get_or, set, length, read_block, write_block, if_keeps,
  if_keeps_when,
}
use rusty_n.Base.{
  length-set, length-write_block, length-read_block, write_block_outside, get_or-set_ne,
  get_or-set_self,
}
use rusty_n.Cart.Pif.{Pif, mark_no_device}
use rusty_n.Cart.Pif.Joybus.{
  Frame, run_channel, identify, buttons, pak_read, pak_write, eeprom_identify, eeprom_read,
  eeprom_write, run_controller, run_cartridge, pak_block, is_eeprom,
}
use rusty_n.Cart.Save.{SaveDevice}

-- The RAM keeps its size, and the bytes besides the length byte and the answer of a frame.
pub record Within (f : Frame) (before after : List ℕ) : Type 0 where
  pub size : length after ≡ length before
  pub outside :
      (k : ℕ)
      → k ≢ f.rx_byte
      → (k < f.resp) ⊎ (f.resp + f.rx_len ≤ k)
      → get_or after k 0 ≡ get_or before k 0

unchanged : (f : Frame) (ram : List ℕ) → Within f ram ram
unchanged f ram = record { size = refl; outside = λ k a b. refl }

block-Within :
    (f : Frame) (ram bytes : List ℕ)
    → length bytes ≤ f.rx_len
    → Within f ram (write_block ram f.resp bytes)
block-Within f ram bytes h = record {
  size = length-write_block bytes ram f.resp;
  outside = λ k a b. write_block_outside bytes ram f.resp k 0 (omega arith);
}

byte-Within :
    (f : Frame) (before ram : List ℕ) (i v : ℕ)
    → (i ≡ f.rx_byte) ⊎ ((f.resp ≤ i) × (i < f.resp + f.rx_len))
    → Within f before ram
    → Within f before (set ram i v)
byte-Within f before ram i v h w = record {
  size = length-set ram i v ∙ w.size;
  outside = λ k a b. get_or-set_ne ram i k v 0 (ground arith) ∙ w.outside k a b;
}

mark-Within : (p : Pif) (f : Frame) → Within f p.ram (mark_no_device p f.rx_byte).ram
unfolding mark_no_device
mark-Within p f =
    if_keeps (λ (q : Pif). Within f p.ram q.ram) (ltb f.rx_byte 64) _ p
      (byte-Within f p.ram p.ram f.rx_byte (bit_or (get_or p.ram f.rx_byte 0) 0x80) (inl refl)
        (unchanged f p.ram))
      (unchanged f p.ram)

identify-Within : (p : Pif) (f : Frame) → Within f p.ram (identify p f).ram
unfolding identify
identify-Within p f =
    if_keeps_when (λ (q : Pif). Within f p.ram q.ram) (leb 3 f.rx_len) _ p
      (λ e. block-Within f p.ram _ (ground arith)) (λ e. unchanged f p.ram)

-- As much of an answer as the frame has room for.
cut-Within :
    (f : Frame) (ram block : List ℕ) (n : ℕ)
    → Within f ram (write_block ram f.resp (read_block block 0 (min f.rx_len n) 0))
cut-Within f ram block n =
    block-Within f ram _ (omega (arith, length-read_block (min f.rx_len n) block 0 0))

pak_read-Within : (p : Pif) (f : Frame) (save : SaveDevice) → Within f p.ram (pak_read p f save).ram
unfolding pak_read
pak_read-Within p f save =
    let block = pak_block p f save in
    if_keeps_when (λ (q : Pif). Within f p.ram q.ram) (leb 33 f.rx_len) _ _
      (λ e. byte-Within f p.ram _ (f.resp + 32) _ (ground arith) (cut-Within f p.ram block 32))
      (λ e. cut-Within f p.ram block 32)

-- One byte of answer, where the frame has room for it.
first-Within :
    (p : Pif) (f : Frame) (v : ℕ)
    → Within f p.ram (if leb 1 f.rx_len then record p { ram = set p.ram f.resp v } else p).ram
first-Within p f v =
    if_keeps_when (λ (q : Pif). Within f p.ram q.ram) (leb 1 f.rx_len) _ p
      (λ e. byte-Within f p.ram p.ram f.resp v (ground arith) (unchanged f p.ram))
      (λ e. unchanged f p.ram)

eeprom_identify-Within :
    (p : Pif) (f : Frame) (save : SaveDevice) → Within f p.ram (eeprom_identify p f save).ram
unfolding eeprom_identify
eeprom_identify-Within p f (SaveDevice.eeprom store) =
    if_keeps_when (λ (q : Pif). Within f p.ram q.ram) (leb 3 f.rx_len) _ p
      (λ e. block-Within f p.ram _ (ground arith)) (λ e. unchanged f p.ram)
eeprom_identify-Within p f SaveDevice.no_save = mark-Within p f
eeprom_identify-Within p f (SaveDevice.sram store) = mark-Within p f
eeprom_identify-Within p f (SaveDevice.flash chip) = mark-Within p f
eeprom_identify-Within p f (SaveDevice.controller_pak store) = mark-Within p f

controller-Within :
    (p : Pif) (f : Frame) (cs : List ℕ) (save : SaveDevice)
    → Within f p.ram (run_controller p f cs save).0.ram
unfolding run_controller buttons pak_write
controller-Within p f cs save =
    let command = get_or p.ram f.cmd 0 in
    let P = λ (r : Pif × SaveDevice). Within f p.ram r.0.ram in
    if_keeps P ((command == 0) || (command == 0xff)) _ _ (identify-Within p f) (
      if_keeps P (command == 1) _ _ (cut-Within f p.ram _ 4) (
        if_keeps P ((command == 2) && leb 3 f.tx_len) _ _ (pak_read-Within p f save) (
          if_keeps P ((command == 3) && leb 35 f.tx_len) _ _ (first-Within p f _)
            (mark-Within p f))))

cartridge-Within :
    (p : Pif) (f : Frame) (save : SaveDevice) → Within f p.ram (run_cartridge p f save).0.ram
unfolding run_cartridge eeprom_read eeprom_write
cartridge-Within p f save =
    let command = get_or p.ram f.cmd 0 in
    let P = λ (r : Pif × SaveDevice). Within f p.ram r.0.ram in
    if_keeps P ((command == 0) || (command == 0xff)) _ _ (eeprom_identify-Within p f save) (
      if_keeps P ((command == 4) && (leb 2 f.tx_len && is_eeprom save)) _ _ (cut-Within f p.ram _ 8)
        (if_keeps P ((command == 5) && (leb 10 f.tx_len && is_eeprom save)) _ _ (first-Within p f 0)
          (mark-Within p f)))

-- A command writes its answer and the length byte of its frame, whatever the device and the command.
pub run_channel-Within :
    (p : Pif) (f : Frame) (cs : List ℕ) (save : SaveDevice)
    → Within f p.ram (run_channel p f cs save).0.ram
unfolding run_channel
run_channel-Within p f cs save =
    let P = λ (r : Pif × SaveDevice). Within f p.ram r.0.ram in
    if_keeps P (f.tx_len == 0) _ _ (unchanged f p.ram) (
      if_keeps P (ltb f.channel 4) _ _ (controller-Within p f cs save)
        (if_keeps P (f.channel == 4) _ _ (cartridge-Within p f save) (mark-Within p f)))

pub mark_no_device-Within : (p : Pif) (f : Frame) → Within f p.ram (mark_no_device p f.rx_byte).ram
mark_no_device-Within p f = mark-Within p f

identify_absent :
    (p : Pif) (f : Frame) (save : SaveDevice)
    → is_eeprom save ≡ false
    → eeprom_identify p f save ≡ mark_no_device p f.rx_byte
unfolding eeprom_identify
identify_absent p f (SaveDevice.eeprom store) h = absurd (ground arith)
identify_absent p f SaveDevice.no_save h = refl
identify_absent p f (SaveDevice.sram store) h = refl
identify_absent p f (SaveDevice.flash chip) h = refl
identify_absent p f (SaveDevice.controller_pak store) h = refl

-- Without an EEPROM the cartridge's port answers nothing.
pub cartridge_absent :
    (p : Pif) (f : Frame) (cs : List ℕ) (save : SaveDevice)
    → f.channel ≡ 4
    → (f.tx_len == 0) ≡ false
    → is_eeprom save ≡ false
    → run_channel p f cs save ≡ (mark_no_device p f.rx_byte, save)
unfolding run_channel run_cartridge
cartridge_absent p f cs save c t h = ground (arith, identify_absent p f save h)

-- The flag of a missing device, in the RAM.
pub get_or-mark_no_device :
    (p : Pif) (rx_byte k : ℕ)
    → rx_byte < length p.ram
    → length p.ram ≡ 64
    → get_or (mark_no_device p rx_byte).ram k 0
      ≡ (if k == rx_byte then bit_or (get_or p.ram k 0) 0x80 else get_or p.ram k 0)
unfolding mark_no_device
get_or-mark_no_device p rx_byte k h e =
    let v = bit_or (get_or p.ram rx_byte 0) 0x80 in
    let inside : ltb rx_byte 64 ≡ true = ground arith in
    ap (λ (q : Pif). get_or q.ram k 0)
      (ap (λ (b : Bool). if b then record p { ram = set p.ram rx_byte v } else p) inside)
    ∙ ground (
      arith,
      ap (λ (i : ℕ). get_or (set p.ram rx_byte v) i 0),
      ap (λ (i : ℕ). get_or p.ram i 0),
      get_or-set_self p.ram rx_byte v 0 h,
      get_or-set_ne p.ram rx_byte k v 0,
    )
