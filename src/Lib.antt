-- ===== src/Lib.antt =====
-- A model of RustyN64, an emulator of the Nintendo 64: the parts of its core that keep state of
-- their own, each as a module of executable definitions, with the theorems that make it correct.
--
-- The crates under crates/ are chips around a bus. The scheduler (crates/rustyn64-core) runs the
-- edges of two clock domains on one master clock. The processor (crates/rustyn64-cpu) translates
-- addresses through its segments and the TLB, goes through its caches to the memory, and enters
-- and leaves exceptions through its control registers; the signal processor (crates/rustyn64-rsp)
-- runs its scalar and vector units under the registers of its interface; the display processor
-- (crates/rustyn64-rdp) takes commands from a queue in the memory; the system bus
-- (crates/rustyn64-core/src/bus.rs) leads a load or store to the chip that has the address, and
-- moves data and interrupts between the chips; the cartridge (crates/rustyn64-cart) is read and
-- written by the peripheral interface, with its save devices behind the same bus and behind the
-- joybus of the PIF; the video and audio interfaces (crates/rustyn64-core/src/vi.rs,
-- crates/rustyn64-audio) follow the master clock and raise interrupts.
--
-- The files and the code they are about:
--   Base          shared: comparisons, list cells with a default, words of 8 to 64 bits, binary digits
--   Cpu.Cache     crates/rustyn64-cpu/src/cache.rs. Tag layout (pack_tag, unpack_tag), Dcache, Icache.
--                 Dcache also has dcache_fill, push_line and pull_line of
--                 crates/rustyn64-cpu/src/pipeline.rs, over a memory of bytes.
--   Cpu.Tlb       crates/rustyn64-cpu/src/tlb.rs. The control registers are a record of their values;
--                 Pages has the arithmetic of its pages, Lookup the walk.
--   Cpu.Cop0      crates/rustyn64-cpu/src/cop0.rs. Layout has the numbers of the control registers and
--                 their writable bits; the registers themselves, the timer and the random
--                 register are here. The array of registers is a function of the index.
--   Cpu.Exception crates/rustyn64-cpu/src/exception.rs, and Exception of pipeline.rs beside it.
--   Cpu.Addr      crates/rustyn64-cpu/src/addr.rs. Segments, and translate_via over Cpu.Tlb.
--   Cpu.Alu       crates/rustyn64-cpu/src/alu.rs. and, or, xor and nor are logical_and and so on.
--   Cpu.Mem       crates/rustyn64-cpu/src/mem.rs.
--   Cpu.Sysad     crates/rustyn64-cpu/src/sysad.rs. The phases of a bus transaction and its length.
--   Cpu.Regs, Cpu.Fpr and Cpu.Cop1  crates/rustyn64-cpu/src/regs.rs, fpr.rs and cop1.rs. The register
--                 files.
--   Rsp.Sp        crates/rustyn64-rsp/src/sp.rs. Status, semaphore and DMA registers.
--   Rsp.Su        crates/rustyn64-rsp/src/su.rs. Step has su_step and its instructions; the vector
--                 instructions (cop2, vector_memory) are a parameter over the whole state.
--   Rsp.Vu        crates/rustyn64-rsp/src/vu.rs. Multiply, Clip, Round and Compute have the
--                 computational instructions, Divide the reciprocals, Transfer the loads and
--                 stores; Cop2 fills the parameter of the scalar unit with them.
--   Rdp           crates/rustyn64-rdp/src/lib.rs and command.rs: the command registers and the
--                 queue, with the runs of its ticks in Drain.
--   Cart.Rom      crates/rustyn64-cart/src/lib.rs. The image, its header, and Cart on the PI bus.
--   Core.Bus      crates/rustyn64-core/src/bus.rs. Registers and interrupt lines; Devices has the
--                 transfers between the chips, Access the loads of the processor (CpuBus for Bus)
--                 and Access.Store its stores.
--   Cart.Pif      crates/rustyn64-cart/src/pif.rs. Joybus has the commands of run_channel, Frames the
--                 loop of execute, which uses the save devices of Cart.Save.
--   Cart.Pi       crates/rustyn64-cart/src/pi.rs. Transfers, status and bus timing registers.
--   Cart.Flash    crates/rustyn64-cart/src/save.rs, FlashRam and its command register.
--   Cart.Save     crates/rustyn64-cart/src/save.rs, SaveDevice, and SaveType of
--                 crates/rustyn64-cart/src/lib.rs.
--   Core.Scheduler  crates/rustyn64-core/src/scheduler.rs. run_until and run_until_fast; the cycles
--                 that it runs on the processor and on the RCP are a parameter.
--   Core.Vi       crates/rustyn64-core/src/vi.rs. Scan position and interrupt.
--   Audio         crates/rustyn64-audio/src/lib.rs. Queue, late carry, status word, sample clock. The
--                 memory it reads is a parameter; the interrupts it raises on the bus are counted.
--
-- A method that changes its object is a function that returns the new record, with its result beside
-- it. A fixed array is a list, read outside its bounds as a default; where a theorem depends on the
-- size, the size is a hypothesis or an invariant. Words are natural numbers with their wrap-around
-- written out. Loops that are bounded by an array or a constant are recursion on it. Other loops run
-- on fuel that is enough: in the two ticks of the video and audio interfaces the quotient of the ticks
-- by the period, which is the number of rounds of Vi::tick, and that number and one for
-- Audio::tick_with_bus; in the joybus walk the 63 bytes it can start a frame at; in the search
-- of the root table 20 halvings of fewer than 2 ^ 20 numbers; in the scheduler the
-- ticks up to the target, since a round moves the clock on by one at least. The theorems hold for the
-- fuel given and end with no round left to run.
--
-- Not modelled: the pipeline, the decoder and the floating-point arithmetic of the processor, what
-- the display processor draws, the scan-out of the picture, the seeded phases and the instruction-
-- wise run of the scheduler, and the work counters; and the frontend, the snapshots and the test
-- harness, which are glue over other crates. Clock values are those that fit in 64 bits with a
-- period to spare.
pub mod Base
pub mod Cart
pub mod Rsp
pub mod Rdp
pub mod Cpu
pub mod Core
pub mod Audio
