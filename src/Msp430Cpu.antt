-- ===== src/Msp430Cpu.antt =====
-- mcu/msp430fr5xx/Msp430Cpu.hpp and Msp430Cpu.cpp: the MSP430 instruction emulator.
-- `State` has the registers and the bus accesses, `Flags` the tests on results, `Operands` the
-- addressing modes, `Execute` the three instruction formats, `Process` interrupts and the main
-- loop; the other children are about what these do.
pub mod State
pub mod Flags
pub mod Operands
pub mod Execute
pub mod Process
pub mod Signed
pub mod FlagBits
pub mod Compare
pub mod Memory
pub mod Interrupts
pub mod Shifts
pub mod SignedShifts
pub mod Jumps
pub mod Carry
mod Tests
