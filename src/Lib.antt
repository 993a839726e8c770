-- ===== src/Lib.antt =====
-- Verification of the kernel of Objective-HailOS (Kernel/ and Library/).
--
-- The kernel takes the memory map of the boot loader, keeps a bitmap of physical pages, hands pages out
-- through an early allocator under `operator new`, sets up the CPU's descriptor tables, dispatches
-- interrupts to handlers, reads the ACPI tables, routes interrupts through the IOAPIC, maps
-- memory to itself with page tables of 2 MiB, prints text on the serial port and the frame buffer,
-- reports panics and exceptions there, and creates kernel threads and switches between them; ticket
-- locks keep CPUs apart. Memory and arrays are functions
-- from addresses or indices to bytes or records, numbers are natural numbers, and the casts and the
-- unsigned arithmetic that can wrap are written out as remainders (Prelude.Words).
--
-- Files and what they model:
--   Prelude: shared names, Boolean tests, arrays, word sizes, bit operations as arithmetic, chains of
--     calls that may not be over (Prelude.Chain), string literals as codes (Prelude.Text).
--   Bit: Kernel/Include/Utility/Bit.hpp (Bit, SetBit, SetBitRange).
--   MemoryUtility: Library/Memory/MemoryUtility.cpp (FillMemory, CopyMemory, CompareMemory).
--   HexString: Library/String/StringUtility.hpp (StringLength, ULongToHexString).
--   PageBitmap: Kernel/Core/Memory/PhysicalMemoryBitmap.{hpp,cpp} (Align, ParseMemoryInfo).
--   PageAllocator: Kernel/Core/Memory/EarlyPageAllocator.cpp (FindAvailableAddress, AllocatePage,
--     FreePage, GetAvailableSize); PageAllocator.Blocks follows the blocks that a caller holds.
--   OperatorNew: Kernel/Core/Memory/NewDelete.cpp (operator new and delete, all forms).
--   RunQueue: Kernel/Core/Scheduler/RunQueue.hpp with the threads of Thread.hpp.
--   Scheduler: Kernel/Core/Scheduler/Scheduler.cpp and ThreadExit of Thread.cpp.
--   Context: Kernel/Arch/x86_64/CPU/SwitchContext.S, Kernel/Core/Scheduler/KernelStack.{hpp,cpp} and the
--     creation of threads in Thread.cpp, on registers and words of memory.
--   Startup: Init, CreateAndEnqueue and Start of Kernel/Core/Scheduler/Scheduler.cpp and
--     KernelStartThreads of Kernel/Core/KernelMain.cpp, on Context, Scheduler and the pages of `new`; Startup.Memory:
--     InitMemory there and InitEarlyPageAllocator of Kernel/Core/Memory/EarlyPageAllocator.cpp.
--   SpinLock: Kernel/Sync/SpinLock.hpp, a step of a CPU for every atomic access, and the interrupt flag
--     there and in Kernel/Arch/x86_64/Utility/CriticalSection.cpp.
--   Paging: Kernel/Arch/x86_64/Paging/Paging.cpp (BuildIdentityMap2M). `Allocator` and `Lawful` are the
--     interface to the page allocator, which Paging.Early fills with PageAllocator; Paging.Entry has
--     the processor's translation of an address.
--   Console: Kernel/Core/KernelConsole/KernelConsole.{hpp,cpp}.
--   Interrupts: Kernel/Arch/x86_64/CPU/Interrupt/InterruptDispatch.{hpp,cpp}, the vector tests and
--     acknowledgements of PIC/PIC.hpp, Interrupts/TimerHandler.cpp and IRQ0Handler.cpp.
--   Output: Kernel/Include/Object/Interface/IOutputDevice.hpp and the devices that implement it: the
--     serial console, the console on the frame buffer, and RedundantOutput, which is both.
--   Panic: Kernel/Core/ErrorHandling/Panic.cpp, GetBootstrapConsole and HaltProcessor, on Output and
--     OperatorNew together.
--   Exceptions: Kernel/Arch/x86_64/Interrupts/ExceptionHandlers.cpp, and the handlers that main
--     installs.
--   Workers: WorkerA and WorkerB of Kernel/Core/KernelMain.cpp.
--   Descriptors: Kernel/Arch/x86_64/CPU/Initialization (GDT, TSS, IDT); Descriptors.Load has the registers
--     that InitCPU loads.
--   PerCpu: Kernel/Arch/x86_64/CPU/PerCPU.{hpp,cpp}, MSR.hpp and InitPerCPUAndTime, on LocalApic.
--   RefCount: Kernel/Include/Object/RefCountedBase.hpp and Kernel/Include/Utility/RefPtr.hpp; in
--     RefCount.Consoles the owners of the consoles of Kernel/Core/KernelConsole/KernelConsole.hpp.
--   Runtime: Kernel/Core/CppRuntime.cpp (the guards of static variables, __cxa_atexit).
--   Acpi: Kernel/Core/ACPI/ACPIManager.cpp (checksum, constructor, shutdown) and MADT.{hpp,cpp}.
--   LocalApic: Kernel/Arch/x86_64/APIC/LAPIC.cpp (start, timer, calibration and its wait).
--   Controller: Kernel/Arch/x86_64/APIC/APICController.cpp and APICInit.hpp, the masks of PIC/PIC.hpp, and
--     the order of their calls in Kernel/Core/KernelMain.cpp; Controller.Pit:
--     Kernel/Arch/x86_64/Timers/PIT.hpp.
--   Serial: Kernel/Arch/x86_64/IO/Serial/Serial16550.hpp and PutChar of the serial console.
--   Clock: Kernel/Core/Timer/Timer.cpp, Kernel/Arch/x86_64/Utility/TSC.hpp and the sleeps of Thread.cpp.
--   Identity: Kernel/Core/UUID/UUID.cpp, InterfaceID.hpp, QueryInterface, Utility/Random.hpp and
--     Kernel/Devices/RandomDevice/HardwareRandomDevice.cpp.
--   IoApic: Kernel/Arch/x86_64/APIC/IOAPIC.{hpp,cpp}, and the objects that main makes (IoApic.Create).
--   Tests: examples of the theorems at concrete inputs.
--
-- Each operation of the source is one function of the same name in snake_case, which takes the state and
-- returns the new one. The length of the bitmap is an argument `size`; the kernel's is
-- `max_phys_page_bitmap_index`. A loop over a range is recursion on the rounds that are left. The loops
-- without such a bound, in StringLength and ParseMADT, run on fuel: the length of the string and one more,
-- and the bytes of the table and one more, are enough. A null pointer that is read is `none` in the
-- scheduler; a panic of `operator new` is a constructor of its result. The effects of an interrupt
-- handler's body, the value of the APIC's base register and the addresses of functions are parameters.
--
-- The lock's memory is sequentially consistent. In Context and Paging memory is 64-bit words and in
-- Console pixels of four bytes, each at its address.
--
-- The waits for a counter, for the transmitter and for a tick run on fuel; one more than the reads that
-- come too early is enough. A panic runs on fuel for the panics that start inside of it: one is enough
-- while a page is free, and none is enough when no page is. What hardware returns (status registers,
-- the ports that a probe reads, counters, RDRAND, CPUID) and the rounding of `double` are parameters. A
-- store to a CPU register or a model-specific register is kept in a record of registers.
--
-- Not modelled: interrupts that arrive inside an operation; the part of `main` that only puts the
-- modelled calls one after the other and prints its progress; code of third parties, the boot loader, and
-- the wrappers of single instructions.
pub mod Prelude
pub mod Bit
pub mod MemoryUtility
pub mod PageBitmap
pub mod PageAllocator
pub mod OperatorNew
pub mod RunQueue
pub mod Scheduler
pub mod Interrupts
pub mod Descriptors
pub mod Exceptions
pub mod HexString
pub mod PerCpu
pub mod RefCount
pub mod Runtime
pub mod Acpi
pub mod IoApic
pub mod Context
pub mod Output
pub mod Paging
pub mod Panic
pub mod Identity
pub mod Clock
pub mod Controller
pub mod Serial
pub mod Startup
pub mod Console
pub mod SpinLock
pub mod LocalApic
pub mod Workers
pub mod Tests
