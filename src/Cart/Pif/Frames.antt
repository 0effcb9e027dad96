-- ===== src/Cart/Pif/Frames.antt =====
-- The walk over the frames of the RAM: `execute` of crates/rustyn64-cart/src/pif.rs, one round of its
-- loop as a step, and enough rounds for any RAM.
pub mod Rounds
pub mod Ports
use rusty_n.Base.{ℕ, zero, suc, ◌+◌, ◌-◌, ◌*◌, ◌/◌, ◌%◌, ◌^◌, bit_and}
use rusty_n.Base.{Bool, true, false, not, ◌&&◌, ◌||◌, List, [], ◌∷◌}
use rusty_n.Base.{if◌then◌else◌, ◌==◌, ltb, leb, get_or, set}
use rusty_n.Cart.Pif.{Pif, mark_no_device, cmd_byte, pif_ram_len}
use rusty_n.Cart.Pif.Joybus.{Frame, run_channel}
use rusty_n.Cart.Save.{SaveDevice}

-- The variables of the loop; `stopped` once it has left by `break`.
pub record Walk : Type 0 where
  pub pif : Pif
  pub save : SaveDevice
  pub i : ℕ
  pub channel : ℕ
  pub stopped : Bool

pub finished : Walk → Bool
finished w = w.stopped || not (ltb w.i cmd_byte && leb w.channel 4)

abbrev stop : Walk → Walk
stop w = record w { stopped = true }

abbrev frame_at : Walk → ℕ → Frame
frame_at w tx = record {
  channel = w.channel;
  rx_byte = w.i + 1;
  cmd = w.i + 2;
  tx_len = bit_and tx 0x3f;
  resp = w.i + 2 + bit_and tx 0x3f;
  rx_len = bit_and (get_or w.pif.ram (w.i + 1) 0) 0x3f;
}

-- What the device of a channel makes of a frame; a port with nothing in it has no answer.
pub answer : Pif → Frame → List ℕ → SaveDevice → Pif × SaveDevice
answer p f controllers save =
    if ltb f.channel 4 && not (get_or p.connected f.channel false)
    then (mark_no_device p f.rx_byte, save)
    else run_channel p f controllers save

abbrev pass : Walk → Frame → Pif × SaveDevice → Walk
pass w f (p, save) = record {
  pif = p;
  save = save;
  i = f.resp + f.rx_len;
  channel = w.channel + 1;
  stopped = false;
}

pub step : List ℕ → Walk → Walk
step controllers w =
    let tx = get_or w.pif.ram w.i 0 in
    let f = frame_at w tx in
    if finished w
    then w
    else if tx == 0xfe
    then stop w
    else if tx == 0xff
    then record w { i = w.i + 1 }
    else if tx == 0
    then record w { i = w.i + 1; channel = w.channel + 1 }
    else if leb cmd_byte (w.i + 1)
    then stop w
    else if ltb pif_ram_len (f.resp + f.rx_len)
    then stop w
    else pass w f (answer w.pif f controllers w.save)

pub rounds : ℕ → List ℕ → Walk → Walk
rounds zero controllers w = w
rounds (suc n) controllers w = rounds n controllers (step controllers w)

abbrev pub start : Pif → SaveDevice → Walk
start p save = record { pif = p; save = save; i = 0; channel = 0; stopped = false }

pub execute : Pif → List ℕ → SaveDevice → Pif × SaveDevice
execute p controllers save =
    let w = rounds cmd_byte controllers (start p save) in
    if bit_and (get_or p.ram cmd_byte 0) 1 == 0 then (p, save) else (
      record w.pif { ram = set w.pif.ram cmd_byte (bit_and (get_or w.pif.ram cmd_byte 0) 0xfe) },
      w.save,
    )
