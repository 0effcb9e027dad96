-- ===== src/Cart/Pif/Frames/Ports.antt =====
-- What a run over the frames leaves alone: `execute` of crates/rustyn64-cart/src/pif.rs.
use rusty_n.Base.{ℕ, zero, suc, ◌+◌, ◌≤◌, ◌<◌, ◌≡◌, refl, ap, ◌∙◌, arith, bit_and, bit_or, inl}
use rusty_n.Base.{Bool, true, false, not, ◌&&◌, List}
use rusty_n.Base.{
  if◌then◌else◌, ◌==◌, ltb, leb, get_or, length, length-set, get_or-set_self, if_keeps,
  if_keeps_when, eq_of_==, bit-bit_and, bit_and_pow,
}
use rusty_n.Cart.Pif.{Pif, mark_no_device, cmd_byte, pif_ram_len}
use rusty_n.Cart.Pif.Joybus.{Frame, is_eeprom}
use rusty_n.Cart.Pif.Joybus.Answers.{
  Within, run_channel-Within, mark_no_device-Within, cartridge_absent, get_or-mark_no_device,
}
use rusty_n.Cart.Pif.Frames.{Walk, finished, step, rounds, answer, pass, frame_at, execute, start}
use rusty_n.Cart.Save.{SaveDevice}

answer-Within :
    (p : Pif) (f : Frame) (cs : List ℕ) (save : SaveDevice)
    → Within f p.ram (answer p f cs save).0.ram
unfolding answer
answer-Within p f cs save =
    if_keeps (λ (r : Pif × SaveDevice). Within f p.ram r.0.ram)
      (ltb f.channel 4 && not (get_or p.connected f.channel false)) _ _ (mark_no_device-Within p f)
      (run_channel-Within p f cs save)

-- A walk moves on, in a RAM of the same size, and does not touch the bytes that it has passed.
record Follows (before after : Walk) : Type 0 where
  pub onward : before.i ≤ after.i
  pub size : length after.pif.ram ≡ length before.pif.ram
  pub passed : (k : ℕ) → k < before.i → get_or after.pif.ram k 0 ≡ get_or before.pif.ram k 0

still : (w v : Walk) → w.i ≤ v.i → v.pif ≡ w.pif → Follows w v
still w v h e = record {
  onward = h;
  size = ap (λ (p : Pif). length p.ram) e;
  passed = λ k lt. ap (λ (p : Pif). get_or p.ram k 0) e;
}

frame-Follows :
    (w : Walk) (tx : ℕ) (cs : List ℕ)
    → Follows w (pass w (frame_at w tx) (answer w.pif (frame_at w tx) cs w.save))
frame-Follows w tx cs =
    let f = frame_at w tx in
    let within = answer-Within w.pif f cs w.save in
    record {
      onward = omega arith;
      size = within.size;
      passed = λ k lt. within.outside k (omega arith) (inl (omega arith));
    }

step-Follows : (cs : List ℕ) (w : Walk) → Follows w (step cs w)
unfolding step
step-Follows cs w =
    let tx = get_or w.pif.ram w.i 0 in
    let P = λ (v : Walk). Follows w v in
    let f = frame_at w tx in
    if_keeps P (finished w) _ _ (still w w (omega arith) refl) (
      if_keeps P (tx == 0xfe) _ _ (still w _ (omega arith) refl) (
        if_keeps P (tx == 0xff) _ _ (still w _ (omega arith) refl) (
          if_keeps P (tx == 0) _ _ (still w _ (omega arith) refl) (
            if_keeps P (leb cmd_byte (w.i + 1)) _ _ (still w _ (omega arith) refl) (
              if_keeps P (ltb pif_ram_len (f.resp + f.rx_len)) _ _ (still w _ (omega arith) refl)
                (frame-Follows w tx cs))))))

rounds-Follows : (n : ℕ) (cs : List ℕ) (w : Walk) → Follows w (rounds n cs w)
unfolding rounds
rounds-Follows zero cs w = still w w (omega arith) refl
rounds-Follows (suc n) cs w =
    let first = step-Follows cs w in
    let rest = rounds-Follows n cs (step cs w) in
    record {
      onward = omega (arith, first.onward, rest.onward);
      size = rest.size ∙ first.size;
      passed = λ k lt. rest.passed k (omega (arith, first.onward)) ∙ first.passed k lt;
    }

-- The rounds that follow keep the size of the RAM and every byte before the frame they start at, such
-- as the answers to the frames before it.
rounds_passed :
    (n : ℕ) (cs : List ℕ) (w : Walk) (k : ℕ)
    → k < w.i
    → (get_or (rounds n cs w).pif.ram k 0 ≡ get_or w.pif.ram k 0)
      × (length (rounds n cs w).pif.ram ≡ length w.pif.ram)
rounds_passed n cs w k lt = let h = rounds-Follows n cs w in (h.passed k lt, h.size)

even_command : (x : ℕ) → bit_and (bit_and x 0xfe) 1 ≡ 0
even_command x = omega (arith, bit_and_pow 0 (bit_and x 0xfe), bit-bit_and 0 x 0xfe)

not_asked :
    (p : Pif) (cs : List ℕ) (save : SaveDevice)
    → bit_and (get_or p.ram cmd_byte 0) 1 ≡ 0
    → execute p cs save ≡ (p, save)
unfolding execute
not_asked p cs save h = rw h refl

executed :
    (p : Pif) (cs : List ℕ) (save : SaveDevice)
    → length p.ram ≡ pif_ram_len
    → (length (execute p cs save).0.ram ≡ pif_ram_len)
      × (bit_and (get_or (execute p cs save).0.ram cmd_byte 0) 1 ≡ 0)
unfolding execute
executed p cs save e =
    let ram = (rounds cmd_byte cs (start p save)).pif.ram in
    let size : length ram ≡ pif_ram_len = (rounds-Follows cmd_byte cs (start p save)).size ∙ e in
    let v = bit_and (get_or ram cmd_byte 0) 0xfe in
    if_keeps_when
      (λ (r : Pif × SaveDevice).
        (length r.0.ram ≡ pif_ram_len) × (bit_and (get_or r.0.ram cmd_byte 0) 1 ≡ 0))
      (bit_and (get_or p.ram cmd_byte 0) 1 == 0) _ _ (λ h. (e, eq_of_== _ _ h))
      (λ h. (
        length-set ram cmd_byte v ∙ size,
        ap (λ (t : ℕ). bit_and t 1) (get_or-set_self ram cmd_byte v 0 (omega (arith, size)))
            ∙ even_command (get_or ram cmd_byte 0),
      ))

-- A run keeps the size of the RAM and takes back the request in its last byte: a second run right
-- after it changes nothing, with any save device.
pub execute_once :
    (p : Pif) (cs ds : List ℕ) (save other : SaveDevice)
    → length p.ram ≡ pif_ram_len
    → (length (execute p cs save).0.ram ≡ pif_ram_len)
      × (execute (execute p cs save).0 ds other ≡ ((execute p cs save).0, other))
execute_once p cs ds save other e =
    let h = executed p cs save e in (h.0, not_asked (execute p cs save).0 ds other h.1)

-- A port that no device answers at: a controller port with nothing in it, or the cartridge's port
-- without an EEPROM.
abbrev pub is_absent : Pif → Frame → SaveDevice → Bool
is_absent p f save =
    if ltb f.channel 4
    then not (get_or p.connected f.channel false)
    else (f.channel == 4) && (not (is_eeprom save) && not (f.tx_len == 0))

absent_lem :
    (p : Pif) (f : Frame) (cs : List ℕ) (save : SaveDevice)
    → is_absent p f save ≡ true
    → answer p f cs save ≡ (mark_no_device p f.rx_byte, save)
unfolding answer
absent_lem p f cs save h = ground (arith, cartridge_absent p f cs save)

-- A command to a port that no device answers at changes no save data and one byte of the RAM: the
-- length byte of its frame gets the flag for a missing device and keeps the rest of its digits.
answer_absent :
    (p : Pif) (f : Frame) (cs : List ℕ) (save : SaveDevice) (k : ℕ)
    → f.rx_byte < length p.ram
    → length p.ram ≡ pif_ram_len
    → is_absent p f save ≡ true
    → ((answer p f cs save).1 ≡ save)
      × (get_or (answer p f cs save).0.ram k 0
          ≡ (if k == f.rx_byte then bit_or (get_or p.ram k 0) 0x80 else get_or p.ram k 0))
answer_absent p f cs save k lt e h =
    let a = absent_lem p f cs save h in
    (
      ap (λ (r : Pif × SaveDevice). r.1) a,
      ap (λ (r : Pif × SaveDevice). get_or r.0.ram k 0) a
          ∙ get_or-mark_no_device p f.rx_byte k lt e,
    )
