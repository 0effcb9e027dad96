-- ===== src/Rdp.antt =====
-- The command front of the display processor: the DP registers, tick_without_bus and tick_with_bus
-- of crates/rustyn64-rdp/src/lib.rs, and crates/rustyn64-rdp/src/command.rs. `G` is the rest of the
-- chip with the memory that it draws into; what a command other than a sync does to it is a
-- parameter.
pub mod Drain
mod Tests
use rusty_n.Base.{ℕ, ◌+◌, ◌-◌, ◌*◌, ◌%◌, ◌^◌, bit_and, bit_or}
use rusty_n.Base.{Bool, true, false, ◌&&◌, ◌||◌, ◌==◌, ltb, leb, if◌then◌else◌, any_set}
use rusty_n.Base.{add32, not32, shr}

abbrev pub dp_status_xbus : ℕ
dp_status_xbus = 1

abbrev pub dp_status_freeze : ℕ
dp_status_freeze = 2

abbrev pub dp_status_start_valid : ℕ
dp_status_start_valid = 0x400

abbrev pub dpc_addr_mask : ℕ
dpc_addr_mask = 0x00ff_fff8

abbrev pub sync_load_gclk : ℕ
sync_load_gclk = 25

abbrev pub sync_pipe_gclk : ℕ
sync_pipe_gclk = 50

abbrev pub sync_tile_gclk : ℕ
sync_tile_gclk = 33

pub record Rdp (G : Type 0) : Type 0 where
  pub cmd_start : ℕ
  pub cmd_end : ℕ
  pub cmd_current : ℕ
  pub status : ℕ
  pub stall : ℕ
  pub commands_processed : ℕ
  pub rest : G

pub opcode_of : ℕ → ℕ
opcode_of word = bit_and (shr word 24) 0x3f

pub command_len_words : ℕ → ℕ
command_len_words opcode =
    let op = bit_and opcode 0x3f in
    if leb 0x08 op && leb op 0x0f
    then 4 + bit_and (shr opcode 2) 1 * 8 + bit_and (shr opcode 1) 1 * 8 + bit_and opcode 1 * 2
    else if (op == 0x24) || (op == 0x25)
    then 2
    else 1

-- Whether the chip runs at all: not frozen, and reading commands from the main memory.
pub is_running : ℕ → Bool
is_running status = if any_set status (bit_or dp_status_freeze dp_status_xbus) then false else true

-- The cycles that a sync command stalls.
pub stall_of : ℕ → ℕ
stall_of opcode =
    if opcode == 0x26
    then sync_load_gclk
    else if opcode == 0x27
    then sync_pipe_gclk
    else if opcode == 0x28
    then sync_tile_gclk
    else 0

abbrev pub sync_full : ℕ
sync_full = 0x29

pub write_status : ℕ → ℕ → ℕ
write_status status value =
    let a = if any_set value 1 then bit_and status (not32 dp_status_xbus) else status in
    let b = if any_set value 2 then bit_or a dp_status_xbus else a in
    let c = if any_set value 4 then bit_and b (not32 dp_status_freeze) else b in
    if any_set value 8 then bit_or c dp_status_freeze else c

module _ {G : Type 0} where
  pub dpc_read : Rdp G → ℕ → ℕ
  dpc_read d offset =
      let i = bit_and offset 7 in
      if i == 0
      then d.cmd_start
      else if i == 1
      then d.cmd_end
      else if i == 2
      then d.cmd_current
      else if i == 3
      then d.status
      else 0

  pub dpc_write : Rdp G → ℕ → ℕ → Rdp G
  dpc_write d offset value =
      let i = bit_and offset 7 in
      let pending = any_set d.status dp_status_start_valid in
      let ended = record d { cmd_end = bit_and value dpc_addr_mask } in
      if i == 0
      then (if pending then d else record d {
        cmd_start = bit_and value dpc_addr_mask;
        status = bit_or d.status dp_status_start_valid;
      })
      else if i == 1
      then (if pending
          then record ended {
            cmd_current = d.cmd_start;
            status = bit_and d.status (not32 dp_status_start_valid);
          }
          else ended)
      else if i == 3
      then record d { status = write_status d.status value }
      else d

  -- The step without the bus, and whether it is left to finish with the bus.
  pub tick_without_bus : Rdp G → Rdp G × Bool
  tick_without_bus d =
      if is_running d.status
      then (if ltb 0 d.stall
          then (record d { stall = d.stall - 1 }, false)
          else if leb d.cmd_end d.cmd_current
          then (d, false)
          else (d, true))
      else (d, false)

  -- The commands behind the parameter: opcode, the two halves of the first word, and its address.
  module _ (words : G → ℕ → ℕ) (draw : ℕ → ℕ → ℕ → ℕ → G → G) where
    -- The new state, and whether the interrupt is raised.
    pub dispatch : Rdp G → ℕ → ℕ → ℕ → ℕ → Rdp G × Bool
    dispatch d opcode hi lo base =
        if (opcode == 0x26) || ((opcode == 0x27) || (opcode == 0x28))
        then (record d { stall = stall_of opcode }, false)
        else if opcode == sync_full
        then (d, true)
        else (record d { rest = draw opcode hi lo base d.rest }, false)

    pub tick_with_bus : Rdp G → Rdp G × Bool
    tick_with_bus d =
        let hi = words d.rest d.cmd_current in
        let opcode = opcode_of hi in
        let len_bytes = command_len_words opcode * 8 in
        if ltb (d.cmd_end - d.cmd_current) len_bytes
        then (d, false)
        else dispatch
            (record d {
              cmd_current = add32 d.cmd_current len_bytes;
              commands_processed = (d.commands_processed + 1) % 2 ^ 64;
            })
            opcode hi (words d.rest (add32 d.cmd_current 4)) d.cmd_current

    pub tick : Rdp G → Rdp G × Bool
    tick d =
        let (idle, needs_bus) = tick_without_bus d in
        if needs_bus then tick_with_bus idle else (idle, false)
