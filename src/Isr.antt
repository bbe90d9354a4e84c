-- ===== src/Isr.antt =====
-- kernel/kernel/isr.c, kernel/include/kernel/isr.h: the registration of interrupt handlers. What
-- an interrupt does is in Isr/Dispatch.
pub mod Dispatch
pub mod Delivery
use ma_os.Base.{ℕ, ◌+◌, some, ok}
use ma_os.Paging.{update}
use ma_os.Machine.{Machine, Handler, Io}

-- `interrupt_t`.
abbrev pub irq : ℕ → ℕ
irq line = 32 + line

unfoldable pub irq_register_handler : ℕ → Handler → Io (Unit {0})
irq_register_handler int_no handler m =
    ok (tt, record m { handlers = update int_no (some handler) m.handlers })
