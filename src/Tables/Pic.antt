-- ===== src/Tables/Pic.antt =====
-- The two interrupt controllers, 8259A, as their data sheet describes what is written to them, and
-- what the code makes of them.
use ma_os.Base.{ℕ, ◌≡◌, refl, List, [], ◌∷◌, ok, bit_and, ◌==◌, if◌then◌else◌}
use ma_os.Machine.{Machine, outb}
use ma_os.Serial.Wait.{outputs}
use ma_os.Tables.{Tables, remap_irqs, idt_init}

-- The word that the data register takes next: three initialisation words come after a command that
-- starts the initialisation, and then masks.
pub data Stage : Type 0 where
  offset_next cascade_next mode_next operating : Stage

pub record Pic : Type 0 where
  pub stage : Stage
  pub vector_offset : ℕ
  pub cascade : ℕ
  pub mode : ℕ
  pub masked : ℕ

-- A write to the command register: digit 4 starts the initialisation, which clears the mask.
abbrev pub command : ℕ → Pic → Pic
command value p =
    if bit_and value 0x10 == 0 then p else record p { stage = offset_next; masked = 0 }

abbrev pub store_word : Stage → ℕ → Pic → Pic
store_word offset_next value p = record p {
  stage = cascade_next;
  vector_offset = bit_and value 0xF8;
}
store_word cascade_next value p = record p { stage = mode_next; cascade = value }
store_word mode_next value p = record p { stage = operating; mode = value }
store_word operating value p = record p { masked = value }

abbrev pub Pics : Type 0
Pics = Pic × Pic

-- One write, to the ports 0x20 and 0x21 of the first controller, or 0xA0 and 0xA1 of the second.
abbrev pub write : ℕ → ℕ → Pics → Pics
write port value p =
    if port == 0x20
    then (command value p.0, p.1)
    else if port == 0x21
    then (store_word p.0.stage value p.0, p.1)
    else if port == 0xA0
    then (p.0, command value p.1)
    else if port == 0xA1
    then (p.0, store_word p.1.stage value p.1)
    else p

-- The controllers after all writes, of which the latest stands first.
abbrev pub replay : Pics → List (ℕ × ℕ) → Pics
replay start [] = start
replay start ((port, value) ∷ earlier) = write port value (replay start earlier)

-- Initialised, with the vectors from `offset` on and all lines masked.
abbrev pub configured : ℕ → ℕ → Pic
configured offset cascade = record {
  stage = operating;
  vector_offset = offset;
  cascade = cascade;
  mode = 1;
  masked = 0xFF;
}

-- Whatever state the controllers are in before, `idt_init` leaves the first with the vectors from
-- 32 on and the second on its line 2, the second with the vectors from 40 on, and all lines masked.
pub idt_init-configured :
    (start : Pics) (isr : ℕ → ℕ) (idt_at : ℕ) (t : Tables) (m : Machine)
    → (t' : Tables) × (m' : Machine) × (idt_init isr idt_at t m ≡ ok (t', m'))
      × (replay start (outputs m'.trace) ≡ (configured 32 4, configured 40 2))
unfolding idt_init remap_irqs outb
idt_init-configured start isr idt_at t m = (_, _, refl, refl)
