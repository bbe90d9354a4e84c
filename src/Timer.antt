-- ===== src/Timer.antt =====
-- kernel/kernel/timer.c: the clock. A sleeping processor is woken by interrupts: `wakes` has for
-- each time that `halt` returns the number of the timer's interrupts that were handled by then.
pub mod Sleep
use ma_os.Base.{
  ℕ, zero, suc, ◌+◌, ◌*◌, ◌/◌, ◌%◌, ◌^◌, bit_and, List, [], ◌∷◌, ok, unfinished, ltb, if◌then◌else◌,
  codes, u32, ◌>>>◌,
}
use ma_os.Machine.{timer, Io, ◌>>=◌, ◌>>◌, pure, outb}
use ma_os.Isr.{irq, irq_register_handler}
use ma_os.Tables.{irq_clear_mask}
use ma_os.Printf.Format.{int}
use ma_os.Console.{printf}

abbrev pub reload_value : ℕ
reload_value = 0xFFFF

abbrev pub ns_per_tick : ℕ
ns_per_tick = reload_value * 1000000000 / 1193182

unfoldable pub timer_handler : ℕ → Io (Unit {0})
timer_handler int_no m =
    ok (tt, record m { ns_since_boot = (m.ns_since_boot + ns_per_tick) % 2 ^ 64 })

unfoldable pub timer_init : Io (Unit {0})
timer_init = do
  irq_register_handler (irq 0) timer
  _ ←
      printf (codes "[PIT] Reload value: %04x Delta %08lx\n")
        (int reload_value ∷ int (u32 ns_per_tick) ∷ int (ns_per_tick >>> 32) ∷ [])
  outb 0x43 0b00110100
  outb 0x40 (bit_and reload_value 0xFF)
  outb 0x40 (reload_value >>> 8)
  irq_clear_mask 0

unfoldable pub handle_ticks : ℕ → Io (Unit {0})
handle_ticks zero = pure tt
handle_ticks (suc ticks) = do timer_handler (irq 0); handle_ticks ticks

-- `while (end_time > ns_since_boot)`.
unfoldable pub sleep_until : ℕ → List ℕ → Io (Unit {0})
sleep_until end_time [] m = if ltb m.ns_since_boot end_time then unfinished else ok (tt, m)
sleep_until end_time (ticks ∷ wakes) m =
    if ltb m.ns_since_boot end_time
    then (do handle_ticks ticks; sleep_until end_time wakes) m
    else ok (tt, m)

unfoldable pub sleep : List ℕ → ℕ → Io (Unit {0})
sleep wakes millis m = sleep_until ((m.ns_since_boot + millis * 1000000) % 2 ^ 64) wakes m
