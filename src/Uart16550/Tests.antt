-- ===== src/Uart16550/Tests.antt =====
-- The registers of the UART in the order in which a program sets them up.
use friscv_soc.Common.{◌≡◌, [], ◌∷◌, ◌++◌}
use friscv_soc.Clint.Registers.{write_access}
use friscv_soc.Uart16550.{Uart16550Model, new_uart, dlab, cycle}
use friscv_soc.Uart16550.Registers.{sent, cycle-printed}

-- The line control register at word offset 0xc, and the divisor latch at 0.
abbrev latch_open : Uart16550Model
latch_open = record new_uart { lcr = 0x83 }

cycle-printed_example : (cycle new_uart (write_access 0 0x141)).printed ≡ [] ++ (0x41 ∷ [])
unfolding new_uart sent dlab
cycle-printed_example = cycle-printed new_uart (write_access 0 0x141)
