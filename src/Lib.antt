-- ===== src/Lib.antt =====
-- The simulation environment of the Vernii SoC, the C++ models that stand around the Verilated
-- core and SoC in target/sim/cpp, two programs that read an SD card, the boot loader in sw/sdk
-- and verif/directed/sd_read.c, and one that checks the identification registers. A testbench
-- clocks the Verilated module and, in each cycle, gives the pins or the bus access to the
-- models, which answer on the pins or on the bus; the SoC testbench also drives the JTAG pins,
-- to load a program and to read how it ended.
--
-- Memory     paged_mem.{hpp,cpp}: a byte pool with pages allocated on first use. `View` is the flat
--            byte array that it stands for.
-- Bus        bus.{hpp,cpp}: the device interface, the sink and the router. A device is a number, an
--            index into a store `ℕ → D`, where the source has a pointer. `Route` says which mapping
--            an address selects, `Loop` what the selection loop does, `Dispatch` what a cycle does.
-- MemModel   mem_model.{hpp,cpp}: the core's memory, with wait states. `Lanes` is about sizes and
--            byte lanes, `Transfer` about the course of a transfer.
-- Clint      clint_model.{hpp,cpp}: timer and software interrupt.
-- Uart16550  uart16550_model.{hpp,cpp}: the registers of the core testbench's UART.
-- UartLink   uart_rx_driver.{hpp,cpp} and uart_tx_monitor.{hpp,cpp}: both ends of a serial line.
-- Dut        dut.hpp: the pins that the SPI models read and write.
-- SdCard     sd_card.{hpp,cpp}: `State`, `Crc`, `Command`, and `Pins` for the clocked interface.
--            `Pins.Exchange` is about one byte on the wires, `Pins.ReadBlock` about a whole read.
-- QspiFlash  qspi_flash.{hpp,cpp}: a flash that answers the read and identification commands.
--            `Exchange` is about one byte on the wires, `Stream` and `Read` about a read and
--            `Preload` about the read of an image that was put there.
-- AxiMem     axi_mem.{hpp,cpp}: the AXI slave memory of the SoC testbench.
-- Board      tb_core_main.cpp: the objects of the core testbench, their address map, the clocking
--            and the loops, and in `CommandLine` the options, the load of the ELF file and `main`.
--            `Run` is about the main loop, `Gpio`, `Written` and `Stored` about the word that is
--            checked, in a cycle and in a whole run, and `Verdict` about the exit code.
-- Loader     sw/sdk/loaders/sdbl.c, with the registers of sw/sdk/vernii.h: the SPI transfers, the
--            commands to the card, and `sd_main`; `Trampoline` has its end, from the copy of the
--            trampoline on. `Frames` is about command frames and sizes, `Accept` about how the
--            loader ends.
-- Jtag       jtag.{hpp,cpp}: the driver on the pins, and in `Debug` the accesses of the debug module.
--            `Tap` specifies a test access port and `SystemBus` a system bus behind the module;
--            `Shift`, `Retry`, `SystemBus.Memory` and `SystemBus.Read` prove the driver against them.
-- Elf        elf_loader.{hpp,cpp}: the reader and the load into a `Memory`. `Accept` is about the
--            reader, `Load` about the segments in memory, `Whole` about the load of a file.
-- SocMemory  soc_memory.{hpp,cpp}: the preload of the on-chip memory. `Bytes` is the memory as bytes
--            in either layout, `Preload` the preload of an image.
-- SocMain    tb_soc_main.cpp: `Args` has the numbers given by the user, `Image` the check of an
--            image and the stage sent over the serial line, and SocMain the commands, which use
--            Jtag and Elf. `Validate`, `Startable`, `Stage`, `Hyperbus`, `Verdict` for the run of
--            a test and `TestCommand` for the exit code are about these.
-- SocTestbench  soc_testbench.{hpp,cpp}: the module, its memory, the two devices on the SPI lines
--            and the serial line, clocked together. `Handshake` is about the memory's channels.
-- RemoteBitbang  remote_bitbang.{hpp,cpp}: the commands of a client and the loop of the server.
--            `Sockets` has the functions on the sockets themselves. `Session` is about a session of
--            commands,
--            `Pulse` about the same pulse sent by Jtag, `Sockets.Delivery` about what is sent and
--            `Sockets.Listen` about which sockets stay open.
-- SdRead     verif/directed/sd_read.c: the transfers, the commands and `sd_main`; `Verdict` is about
--            its result and the card model.
-- SysId      verif/directed/sysid.c, with the registers and masks of sw/sdk/vernii.h: the checks of
--            the identification block and the probe of its words. `Verdict` and `Reference` are
--            about the number that it reports.
--
-- Numbers are natural numbers, with the wrap-around of the source's type written out (`u8`, `u32`,
-- `u64`, `sub32` of Common.Words). An operation that changes a memory returns the new one, a read
-- too, since it may allocate a page. A virtual method or a member is a field or a function of the
-- same name; output on stdout or stderr is a list in the state or a function of an interface. What
-- throws returns a `Result`, of Common.Results, and the state that it leaves. The clock behind Jtag,
-- RemoteBitbang and SocMain is an interface whose exception stays in the state, with the clock
-- standing still from there on; SocMain looks for it after each call that runs the clock, and ends
-- the call with it (`raising`).
--
-- Parameters: the bytes that the random generator puts in a fresh page (`fill`), the draws of a
-- random wait (`uniform`), the pins of the Verilated core (`Core`), the testbench and the pins behind
-- the JTAG driver, the server and the commands (`Bench`, `Target`, `Soc`), the structures of elf.h
-- (`ElfHeader`), the environment, strtoul, strtol and the files (`Host`), the events on a socket and
-- the calls of the operating system (`Net`), the machine code of the trampoline, and the peripherals
-- behind the registers of the three programs (`Registers`).
--
-- Loops are structural recursion on a list or a count that the source fixes (the mappings, the
-- bytes of a block, the bits of a byte, the attempts of a polling loop), so none of the models
-- needs fuel beyond the limits that the source itself has; the main loops of `Board` and
-- `SocMain` have the limit on cycles for fuel, and the loop over the text of VERNII_HB_CFG the
-- text's length, since a round takes a character at least. The endless loop of the server runs
-- on the events so far; its loops that a signal may interrupt have fuel, which a bound on the
-- interruptions makes enough for `send_all`.
--
-- Not modelled: the Verilated modules, whose ports are the interface `Module` of SocTestbench, the
-- assembly (start-up code, the other boot loaders and the directed programs), and the RTL itself.
pub mod Common
pub mod Memory
pub mod Bus
pub mod MemModel
pub mod Clint
pub mod Uart16550
pub mod UartLink
pub mod Dut
pub mod SdCard
pub mod QspiFlash
pub mod AxiMem
pub mod Loader
pub mod Board
pub mod Jtag
pub mod Elf
pub mod SocMemory
pub mod SocMain
pub mod RemoteBitbang
pub mod SdRead
pub mod SocTestbench
pub mod SysId
