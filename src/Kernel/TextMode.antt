-- ===== src/Kernel/TextMode.antt =====
-- kernel/kernel/kernel.cpp: `kernel_main` where the loader has set up no frame buffer of pixels.
use ma_os.Base.{
  ℕ, ◌+◌, ◌^◌, ◌≤◌, ◌<◌, ◌≡◌, refl, true, false, List, [], ◌∷◌, ◌++◌, Outcome, ok, arith, length,
  codes,
}
use ma_os.Tty.{makecolor, black, white}
use ma_os.Tty.Screen.{IsValid}
use ma_os.Machine.{Machine, ◌>>=◌}
use ma_os.Printf.Format.{int, vprintf}
use ma_os.Printf.Numeral.{IsNumeral, IsNumeral-short, print_int-positive}
use ma_os.Console.Output.{AllReady}
use ma_os.Console.Spoken.{Spoken, Spoken-trans, printf-short, setcolor-Spoken}
use ma_os.Float.{Floats}
use ma_os.Gfx.{Multiboot}
use ma_os.Kernel.{Kernel, announce, show, light_red}
use ma_os.Kernel.Lines.{
  flags_line, screen_line, hello, not_supported, done, vprintf-hello, vprintf-flags, vprintf-screen,
  vprintf-not_supported, vprintf-done, flags_line_short, screen_line_short,
}

-- The flags have at most 15 bits, and the sizes are no negative `int`s.
pub record CanAnnounce (mb : Multiboot) : Type 0 where
  pub flags : mb.flags < 2 ^ 15
  pub width : mb.framebuffer_width < 2 ^ 31
  pub height : mb.framebuffer_height < 2 ^ 31
  pub bpp : mb.framebuffer_bpp < 2 ^ 31
  pub pitch : mb.framebuffer_pitch < 2 ^ 31

-- The three lines with what the loader has set up.
pub record IsAnnouncement (mb : Multiboot) (text : List ℕ) : Type 0 where
  pub bits : List ℕ
  pub ws : List ℕ
  pub hs : List ℕ
  pub ds : List ℕ
  pub ps : List ℕ
  pub flags : IsNumeral 2 12 b'0' mb.flags bits
  pub width : IsNumeral 10 0 b' ' mb.framebuffer_width ws
  pub height : IsNumeral 10 0 b' ' mb.framebuffer_height hs
  pub bpp : IsNumeral 10 0 b' ' mb.framebuffer_bpp ds
  pub pitch : IsNumeral 10 0 b' ' mb.framebuffer_pitch ps
  pub lines : text ≡ hello ++ (flags_line bits ++ screen_line ws hs ds ps)

announce_lines :
    (mb : Multiboot) (m : Machine) (second third : List ℕ)
    → vprintf 23 (codes "Multiboot flags: %012b\n") (int mb.flags ∷ [])
      ≡ ok record { bytes = second; written = 18 }
    → vprintf 31 (codes "Screen: %dx%d %d bpp pitch: %d\n") (
        int mb.framebuffer_width
        ∷ int mb.framebuffer_height
        ∷ int mb.framebuffer_bpp
        ∷ int mb.framebuffer_pitch
        ∷ [])
      ≡ ok record { bytes = third; written = 23 }
    → length second ≤ 33
    → length third ≤ 83
    → IsValid m.tty
    → AllReady m.answers
    → 262 ≤ length m.answers
    → (m' : Machine) × (announce mb m ≡ ok (tt, m'))
      × Spoken (hello ++ (second ++ third)) m m'
      × (length m.answers ≤ 262 + length m'.answers)
unfolding announce
announce_lines mb m second third e2 e3 short2 short3 valid ready enough =
    let (m1, done1, said1, left1) =
      printf-short 15 hello [] record { bytes = hello; written = 15 } m vprintf-hello valid ready
        (omega arith) (omega arith) in
    let (m2, done2, said2, left2) =
      printf-short 33 (codes "Multiboot flags: %012b\n") (int mb.flags ∷ [])
        record { bytes = second; written = 18 } m1 e2 said1.valid said1.ready short2
        (omega (arith, left1)) in
    let (m3, done3, said3, left3) =
      printf-short 83 (codes "Screen: %dx%d %d bpp pitch: %d\n")
        (int mb.framebuffer_width
          ∷ int mb.framebuffer_height
          ∷ int mb.framebuffer_bpp
          ∷ int mb.framebuffer_pitch
          ∷ [])
        record { bytes = third; written = 23 } m2 e3 said2.valid said2.ready short3
        (omega (arith, left1, left2)) in
    (
      m3,
      rw (done1, done2, done3, ◌>>=◌) refl,
      Spoken-trans hello (second ++ third) m m1 m3 said1
          (Spoken-trans second third m1 m2 m3 said2 said3),
      omega (arith, left1, left2, left3),
    )

pub announce-Spoken :
    (mb : Multiboot) (m : Machine)
    → CanAnnounce mb
    → IsValid m.tty
    → AllReady m.answers
    → 262 ≤ length m.answers
    → (text : List ℕ) × (m' : Machine) × (announce mb m ≡ ok (tt, m'))
      × IsAnnouncement mb text
      × Spoken text m m'
      × (length m.answers ≤ 262 + length m'.answers)
unfolding announce
announce-Spoken mb m can valid ready enough =
    let (bits, shown_bits, is_bits) =
      print_int-positive mb.flags 2 12 b'0' false (omega arith) (omega arith)
        (omega (arith, can.flags)) (omega (arith, can.flags)) in
    let (ws, shown_ws, is_ws) =
      print_int-positive mb.framebuffer_width 10 0 b' ' true (omega arith) (omega arith) can.width
        (omega (arith, can.width)) in
    let (hs, shown_hs, is_hs) =
      print_int-positive mb.framebuffer_height 10 0 b' ' true (omega arith) (omega arith) can.height
        (omega (arith, can.height)) in
    let (ds, shown_ds, is_ds) =
      print_int-positive mb.framebuffer_bpp 10 0 b' ' true (omega arith) (omega arith) can.bpp
        (omega (arith, can.bpp)) in
    let (ps, shown_ps, is_ps) =
      print_int-positive mb.framebuffer_pitch 10 0 b' ' true (omega arith) (omega arith) can.pitch
        (omega (arith, can.pitch)) in
    let (m', done, said, left) =
      announce_lines mb m (flags_line bits) (screen_line ws hs ds ps)
        (vprintf-flags mb.flags bits shown_bits)
        (vprintf-screen mb.framebuffer_width mb.framebuffer_height mb.framebuffer_bpp
          mb.framebuffer_pitch ws hs ds ps shown_ws shown_hs shown_ds shown_ps)
        (flags_line_short bits (IsNumeral-short _ _ _ _ bits (omega arith) is_bits))
        (screen_line_short ws hs ds ps (IsNumeral-short _ _ _ _ ws (omega arith) is_ws)
          (IsNumeral-short _ _ _ _ hs (omega arith) is_hs)
          (IsNumeral-short _ _ _ _ ds (omega arith) is_ds)
          (IsNumeral-short _ _ _ _ ps (omega arith) is_ps))
        valid ready enough in
    (
      hello ++ (flags_line bits ++ screen_line ws hs ds ps),
      m',
      done,
      record {
        bits = bits;
        ws = ws;
        hs = hs;
        ds = ds;
        ps = ps;
        flags = is_bits;
        width = is_ws;
        height = is_hs;
        bpp = is_ds;
        pitch = is_ps;
        lines = refl;
      },
      said,
      left,
    )

pub show-Spoken :
    (fl : Floats) (malloc : ℕ → Kernel → Outcome (ℕ × Kernel)) (rounds : List (List ℕ))
    (mb : Multiboot) (k : Kernel) (m : Machine)
    → IsValid m.tty
    → AllReady m.answers
    → 58 ≤ length m.answers
    → (m' : Machine) × (show fl malloc rounds mb k false m ≡ ok (k, m'))
      × Spoken (not_supported ++ done) m m'
unfolding show
show-Spoken fl malloc rounds mb k m valid ready enough =
    let (m1, done1, said1) = setcolor-Spoken (makecolor black light_red) m valid ready in
    let (m2, done2, said2, left2) =
      printf-short 24 not_supported [] record { bytes = not_supported; written = 24 } m1
        vprintf-not_supported said1.valid said1.ready (omega arith) (omega (arith, said1.left)) in
    let (m3, done3, said3) = setcolor-Spoken white m2 said2.valid said2.ready in
    let (m4, done4, said4, left4) =
      printf-short 5 done [] record { bytes = done; written = 5 } m3 vprintf-done said3.valid
        said3.ready (omega arith) (omega (arith, said1.left, left2, said3.left)) in
    (
      m4,
      rw (done1, done2, done3, done4, ◌>>=◌) refl,
      Spoken-trans not_supported done m m2 m4 (Spoken-trans [] not_supported m m1 m2 said1 said2)
          (Spoken-trans [] done m2 m3 m4 said3 said4),
    )
