-- ===== src/Lib.antt =====
-- Fused simulates microcontrollers that run on harvested energy: a CPU, its bus and its
-- peripherals, as SystemC modules.
--
-- Parts and files
--   Base             shared names, lists, bits and results
--   Utilities        utilities/Utilities.cpp: bytes and words in target byte order
--   RegisterFile     mcu/RegisterFile.hpp, .cpp: the registers behind a peripheral
--   BusTarget        mcu/BusTarget.hpp, .cpp: a peripheral's bus socket over its registers
--                    Contract is the interface between initiators and memory: a memory is a
--                    function from addresses to bytes
--   GenericMemory    mcu/GenericMemory.hpp, .cpp, mcu/VolatileMemory.hpp and
--                    mcu/NonvolatileMemory.cpp: byte storage behind a socket
--   DummyPeripheral  mcu/DummyPeripheral.hpp, .cpp: a peripheral of fixed bytes
--   Bus              mcu/Bus.hpp, .cpp: address decoding, checks and traces; Memories is the bus
--                    with memories behind it, which fills the interface
--   Msp430Cpu        mcu/msp430fr5xx/Msp430Cpu.hpp, .cpp: the instruction emulator
--   Cache            mcu/Cache.hpp, .cpp, and mcu/CacheReplacementPolicies.hpp: Policy is the
--                    interface between the cache and its policies, which Lru, RoundRobin, Lfu
--                    and PseudoRandom fill. Represents says which memory a cache and the memory
--                    behind it stand for, with what becomes of it when a line is written back,
--                    loaded or written; Transparency has single accesses, Refinement sequences
--   Nvic             mcu/cortex-m0/Nvic.hpp, .cpp: the interrupt controller of the Cortex-M0
--   InterruptArbiter mcu/msp430fr5xx/InterruptArbiter.hpp: which request the MSP430 sees
--   TimerA           mcu/msp430fr5xx/TimerA.hpp, .cpp: a timer of the MSP430
--   Mpy32            mcu/msp430fr5xx/Mpy32.cpp: the hardware multiplier of the MSP430
--   Dma              mcu/msp430fr5xx/Dma.hpp, .cpp: the DMA controller; Channel is the thread of one
--                    channel, Block a transfer to memory, Vector the interrupt state
--   PowerManagementModule  mcu/msp430fr5xx/PowerManagementModule.hpp, .cpp: the supply supervisor;
--                    Supply sees it as a switch
--   FrctlA           mcu/msp430fr5xx/Frctl_a.hpp, .cpp: the wait states of the memory controller
--   SpiDevice        sd/SpiDevice.hpp, .cpp, sd/SpiLoopBack.cpp and
--                    mcu/SpiTransactionExtension.hpp: what answers on an SPI bus
--   Spi              mcu/cortex-m0/Spi.hpp, .cpp: the SPI master; Fifo is its queue of bytes, Targets
--                    the devices behind its socket, Exchange a transaction
--   Accelerometer    sd/Accelerometer.hpp, .cpp: a sensor on the SPI bus; Frames are those of its
--                    FIFO, Measure a measurement
--   Gpio             mcu/cortex-m0/Gpio.hpp, .cpp: the pins of the Cortex-M0
--   DigitalIo        mcu/msp430fr5xx/DigitalIo.hpp, .cpp: the pins of the MSP430
-- A function of the source keeps its name, in snake case; its definition names it in backquotes.
--
-- State is passed explicitly. A method that can end the simulation gives a `Result`: `assertion` for
-- a failed assert, `fatal` for a fatal report. uint32_t values are numbers below 2 ^ 32, with the
-- wrap-around written out where the source can reach it. A CPU method is a function of the CPU's
-- state in the monad `M`.
--
-- Fuel: the loops of the buffer accesses in RegisterFile take the buffer's length as fuel; each
-- round uses at least one byte. The loop of countSetBits takes 64, the number of bits, as fuel; each
-- round clears one bit. The loop of a DMA transfer takes a list with an entry for each round, which
-- tells whether a pause of the channel is over; more rounds than units are enough.
-- The updates of the DMA interrupt state take fuel, of which more than there are flags is enough.
-- The loop that pops old frames of the accelerometer takes the length of its FIFO; each round pops a
-- byte at least.
-- All other loops are structural.
--
-- Parameters: the system behind the bus sockets of the CPU, the cache and the DMA controller
-- (`BusPort`), and where a theorem needs it that this is memory (`IsMemory`), which the bus with its
-- memories fulfils for the CPU, and the runs of the theorems use. The targets behind the bus are a
-- parameter of the bus, and those behind the socket of the SPI master one of the master (`SpiPort`).
-- The samples of the accelerometer and what happens during its sampling time are arguments, and so
-- are the voltages of the supply, their comparison and the thresholds. The word size of the target is
-- an argument.
--
-- Not modelled: the power model's reports, logging, printing, the simulated time of bus accesses,
-- the third-party Cortex-M0 emulator, SystemC itself, the wiring of boards, and the peripherals that
-- have no file here.
pub mod Base
pub mod Utilities
pub mod RegisterFile
pub mod BusTarget
pub mod GenericMemory
pub mod DummyPeripheral
pub mod Bus
pub mod Msp430Cpu
pub mod Cache
pub mod Nvic
pub mod InterruptArbiter
pub mod TimerA
pub mod Mpy32
pub mod Dma
pub mod Gpio
pub mod SpiDevice
pub mod Spi
pub mod Accelerometer
pub mod PowerManagementModule
pub mod DigitalIo
pub mod FrctlA
