-- ===== src/Kernel/Render.antt =====
-- The drawing loop of `kernel_main` goes on.
use ma_os.Base.{
  ℕ, zero, suc, ◌+◌, ◌*◌, ◌^◌, ◌≤◌, ◌<◌, ◌≡◌, ◌∙◌, List, [], ◌∷◌, ◌++◌, ok, arith, length,
}
use ma_os.Float.{Floats}
use ma_os.Machine.{Machine, then_ok}
use ma_os.CString.Copy.{Apart}
use ma_os.Timer.{ns_per_tick, sleep}
use ma_os.Timer.Sleep.{at_time, sum, sleep-Sleeps}
use ma_os.Paging.Touch.{IsMapped}
use ma_os.Gfx.{Multiboot, Gfx, gfx_framebuffer, fb_size_of}
use ma_os.Kernel.{render}
use ma_os.Kernel.Frame.{pixel_colour}
use ma_os.Kernel.Frame.Pixels.{dword_at}
use ma_os.Kernel.Frame.Apply.{draw_frame-dword_at}

-- `time` after `i` rounds.
abbrev pub time_after : (fl : Floats) → fl.Float → ℕ → fl.Float
time_after fl time zero = time
time_after fl time (suc i) = time_after fl (fl.add time (fl.literal 1 1)) i

-- The colours of a picture.
abbrev pub HasColours : (fl : Floats) → Multiboot → fl.Float → (ℕ → ℕ → ℕ) → Type 0
HasColours fl mb time colours =
    (j x : ℕ)
    → j < mb.framebuffer_height
    → x < mb.framebuffer_width
    → (pixel_colour fl time j x ≡ ok (colours j x)) × (colours j x < 2 ^ 32)

-- The frame buffer holds a picture.
abbrev pub IsShown : Multiboot → (ℕ → ℕ → ℕ) → Gfx → Type 0
IsShown mb colours g =
    (j x : ℕ)
    → j < mb.framebuffer_height
    → x < mb.framebuffer_width
    → dword_at g.memory (gfx_framebuffer + 4 * (j * mb.framebuffer_width + x)) ≡ colours j x

-- A frame buffer of 32 bits for each pixel, which is not too large, and a buffer beside it, both of
-- them mapped.
pub record CanDraw (mb : Multiboot) (buffer : ℕ) (g : Gfx) : Type 0 where
  pub depth : mb.framebuffer_bpp ≡ 32
  pub small : mb.framebuffer_height * mb.framebuffer_width < 2 ^ 27
  pub size : g.fb_size ≡ fb_size_of mb
  pub apart : Apart gfx_framebuffer buffer (fb_size_of mb)
  pub top : gfx_framebuffer + fb_size_of mb ≤ 2 ^ 32
  pub end : buffer + fb_size_of mb ≤ 2 ^ 32
  pub target : IsMapped g.space gfx_framebuffer (fb_size_of mb)
  pub source : IsMapped g.space buffer (fb_size_of mb)

-- The wake-ups of a sleep make up the 100 milliseconds.
abbrev pub IsLong : List ℕ → Type 0
IsLong wakes = 100 * 1000000 ≤ sum wakes * ns_per_tick

abbrev pub AllLong : List (List ℕ) → Type 0
AllLong [] = Unit
AllLong (wakes ∷ rounds) = IsLong wakes × AllLong rounds

-- The interrupts of all rounds.
abbrev pub all_ticks : List (List ℕ) → ℕ
all_ticks [] = 0
all_ticks (wakes ∷ rounds) = sum wakes + all_ticks rounds

-- One round: what it leaves, and when.
record Round (fl : Floats) (mb : Multiboot) (buffer : ℕ) (wakes : List ℕ) (rest : List (List ℕ))
    (time : fl.Float) (g : Gfx) (m : Machine) (colours : ℕ → ℕ → ℕ) : Type 0 where
  after : Gfx
  end : ℕ
  passes :
      render fl mb buffer (wakes ∷ rest) time g m
      ≡ render fl mb buffer rest (fl.add time (fl.literal 1 1)) after (at_time end m)
  ready : CanDraw mb buffer after
  shown : IsShown mb colours after
  waited : m.ns_since_boot + 100 * 1000000 ≤ end
  last : end ≤ m.ns_since_boot + sum wakes * ns_per_tick

render-Round :
    (fl : Floats) (mb : Multiboot) (buffer : ℕ) (wakes : List ℕ) (rest : List (List ℕ))
    (time : fl.Float) (g : Gfx) (m : Machine) (colours : ℕ → ℕ → ℕ)
    → CanDraw mb buffer g
    → HasColours fl mb time colours
    → IsLong wakes
    → m.ns_since_boot + sum wakes * ns_per_tick < 2 ^ 64
    → Round fl mb buffer wakes rest time g m colours
unfolding render
render-Round fl mb buffer wakes rest time g m colours can all long fits =
    let (g', drawn, size, same_space, shown) =
      draw_frame-dword_at fl mb buffer time g colours can.depth can.small can.size can.apart can.top
        can.end can.target can.source all in
    let (t, slept, waited, last) =
      (sleep-Sleeps wakes 100 m fits (omega (arith, long))).0 (omega (arith, long)) in
    let next = render fl mb buffer rest (fl.add time (fl.literal 1 1)) in
    record {
      after = g';
      end = t;
      passes = rw drawn (then_ok (sleep wakes 100) (λ _. next g') m slept);
      ready = record {
        depth = can.depth;
        small = can.small;
        size = size ∙ can.size;
        apart = can.apart;
        top = can.top;
        end = can.end;
        target = rw same_space can.target;
        source = rw same_space can.source;
      };
      shown = shown;
      waited = waited;
      last = last;
    }

-- On a machine whose frame buffer can be drawn to, where every pixel has a colour at the times of
-- the first rounds, the interrupts wake each of their sleeps long enough and the clock does not
-- wrap: every one of these rounds is reached and passed, with its picture on the screen, and takes
-- no less than 100 milliseconds of the clock. `before` are the rounds in front of the one that
-- `wakes` belongs to, and `later` are the ones behind it.
pub render-IsShown :
    (fl : Floats) (mb : Multiboot) (buffer : ℕ) (before : List (List ℕ)) (wakes : List ℕ)
    (later : List (List ℕ)) (time : fl.Float) (g : Gfx) (m : Machine) (colours : ℕ → ℕ → ℕ → ℕ)
    → CanDraw mb buffer g
    → ((i : ℕ) → i ≤ length before → HasColours fl mb (time_after fl time i) (colours i))
    → AllLong before
    → IsLong wakes
    → m.ns_since_boot + (all_ticks before + sum wakes) * ns_per_tick < 2 ^ 64
    → (g' : Gfx) × (t : ℕ) × (render fl mb buffer (before ++ wakes ∷ later) time g m
        ≡ render fl mb buffer later (time_after fl time (suc (length before))) g' (at_time t m))
      × IsShown mb (colours (length before)) g'
      × (m.ns_since_boot + suc (length before) * (100 * 1000000) ≤ t)
render-IsShown fl mb buffer [] wakes later time g m colours can all rounds long fits =
    let r =
      render-Round fl mb buffer wakes later time g m (colours 0) can (all 0 (omega arith)) long
        (omega (arith, fits)) in
    (r.after, r.end, r.passes, r.shown, omega (arith, r.waited))
render-IsShown fl mb buffer (first ∷ before) wakes later time g m colours can all (one, rounds) long
      fits =
    let r =
      render-Round fl mb buffer first (before ++ wakes ∷ later) time g m (colours 0) can
        (all 0 (omega arith)) one (omega (arith, fits)) in
    let (g', t, passes, shown, waited) =
      render-IsShown fl mb buffer before wakes later (fl.add time (fl.literal 1 1)) r.after
        (at_time r.end m) (λ i. colours (suc i)) r.ready (λ i h. all (suc i) (omega arith)) rounds
        long (omega (arith, fits, r.last)) in
    (g', t, r.passes ∙ passes, shown, omega (arith, r.waited, waited))
