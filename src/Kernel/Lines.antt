-- ===== src/Kernel/Lines.antt =====
-- kernel/kernel/kernel.cpp: the lines that kernel_main prints, as `vprintf` makes them.
use ma_os.Base.{
  ℕ, ◌+◌, ◌≤◌, ◌≡◌, refl, Bool, Bool-cases, inl, inr, ◌==◌, if◌then◌else◌, ◌∙◌, true, false, List,
  [], ◌∷◌, ◌++◌, ok, arith, length, length-append, codes, ◌>>=◌,
}
use ma_os.Printf.{print_int}
use ma_os.Printf.Rounds.{literal_round, conversion_round}
use ma_os.Printf.Format.{
  int, vprintf, run_piece, next_piece, text_of, behind_text, parse_directive, parse_uint, accept,
  convert, convert_int,
}
use ma_os.Printf.Items.{Item, char, decimal, ArePlain}
use ma_os.Printf.Render.{vprintf-render}

abbrev chars : List ℕ → List Item → List Item
chars [] items = items
chars (c ∷ cs) items = char c ∷ chars cs items

abbrev screen_items : ℕ → ℕ → ℕ → ℕ → List Item
screen_items w h d p = chars (codes "Screen: ") (
    decimal w
    ∷ char b'x'
    ∷ decimal h
    ∷ char b' '
    ∷ decimal d
    ∷ chars (codes " bpp pitch: ") (decimal p ∷ char b'\n' ∷ []))

-- There is no `%` in a text.
abbrev plain : List ℕ → Bool
plain [] = true
plain (c ∷ cs) = if c == b'%' then false else plain cs

chars-ArePlain :
    (cs : List ℕ) (items : List Item) → plain cs ≡ true → ArePlain items → ArePlain (chars cs items)
chars-ArePlain [] items e rest = rest
chars-ArePlain (c ∷ cs) items e rest = elim (Bool-cases (c == b'%')) [
  | inl same ↦ absurd (ground (arith, rw same at e))
  | inr other ↦ (ground (arith, other), chars-ArePlain cs items (rw other at e) rest)
]

abbrev pub screen_line : List ℕ → List ℕ → List ℕ → List ℕ → List ℕ
screen_line ws hs ds ps =
    codes "Screen: "
    ++ (ws
        ++ (codes "x"
            ++ (hs ++ (codes " " ++ (ds ++ (codes " bpp pitch: " ++ (ps ++ codes "\n")))))))

pub vprintf-screen :
    (w h d p : ℕ) (ws hs ds ps : List ℕ)
    → print_int w 10 true 0 b' ' ≡ ok ws
    → print_int h 10 true 0 b' ' ≡ ok hs
    → print_int d 10 true 0 b' ' ≡ ok ds
    → print_int p 10 true 0 b' ' ≡ ok ps
    → vprintf 31 (codes "Screen: %dx%d %d bpp pitch: %d\n") (int w ∷ int h ∷ int d ∷ int p ∷ [])
      ≡ ok record { bytes = screen_line ws hs ds ps; written = 23 }
vprintf-screen w h d p ws hs ds ps ew eh ed ep =
    let items = screen_items w h d p in
    let last : ArePlain (chars (codes " bpp pitch: ") (decimal p ∷ char b'\n' ∷ [])) =
      chars-ArePlain (codes " bpp pitch: ") (decimal p ∷ char b'\n' ∷ []) refl (omega arith, tt) in
    let all : ArePlain items =
      chars-ArePlain (codes "Screen: ")
        (decimal w
          ∷ char b'x'
          ∷ decimal h
          ∷ char b' '
          ∷ decimal d
          ∷ chars (codes " bpp pitch: ") (decimal p ∷ char b'\n' ∷ []))
        refl (omega arith, (omega arith, last)) in
    vprintf-render 31 items all (omega arith) ∙ rw (ew, eh, ed, ep, ◌>>=◌) refl

abbrev pub flags_line : List ℕ → List ℕ
flags_line bits = codes "Multiboot flags: " ++ (bits ++ codes "\n")

vprintf-newline : vprintf 21 (codes "\n") [] ≡ ok record { bytes = codes "\n"; written = 1 }
unfolding vprintf run_piece next_piece text_of behind_text
vprintf-newline = refl

-- `%012b`, with the line feed behind it, and with the text in front.
module _ (flags : ℕ) (bits : List ℕ) (e : print_int flags 2 false 12 b'0' ≡ ok bits) where
  vprintf-bits :
      vprintf 22 (codes "%012b\n") (int flags ∷ [])
      ≡ ok record { bytes = bits ++ codes "\n"; written = 1 }
  unfolding next_piece parse_directive parse_uint accept convert convert_int
  vprintf-bits =
      conversion_round 21 b'%' (codes "012b\n") (int flags ∷ []) (codes "012b\n")
        record {
          sig = true;
          large = false;
          pad_char = b'0';
          width = 12;
          precision = 6;
          specifier = b'b';
          behind = codes "\n";
        }
        refl refl (ok record { bytes = bits; written = 0; args = [] }) (rw e refl)
      ∙ rw vprintf-newline refl

  pub vprintf-flags :
      vprintf 23 (codes "Multiboot flags: %012b\n") (int flags ∷ [])
      ≡ ok record { bytes = flags_line bits; written = 18 }
  unfolding next_piece text_of behind_text
  vprintf-flags =
      literal_round 22 b'M' (codes "ultiboot flags: %012b\n") (int flags ∷ [])
        (codes "Multiboot flags: ") (codes "%012b\n") refl
      ∙ rw vprintf-bits refl

abbrev pub hello : List ℕ
hello = codes "Hello, World!!\n"

abbrev pub not_supported : List ℕ
not_supported = codes "Graphics not supported!\n"

abbrev pub done : List ℕ
done = codes "Done\n"

pub vprintf-hello : vprintf 15 hello [] ≡ ok record { bytes = hello; written = 15 }
unfolding vprintf run_piece next_piece text_of behind_text
vprintf-hello = refl

pub vprintf-not_supported :
    vprintf 24 not_supported [] ≡ ok record { bytes = not_supported; written = 24 }
unfolding vprintf run_piece next_piece text_of behind_text
vprintf-not_supported = refl

pub vprintf-done : vprintf 5 done [] ≡ ok record { bytes = done; written = 5 }
unfolding vprintf run_piece next_piece text_of behind_text
vprintf-done = refl

short_append :
    (xs ys : List ℕ) (a b : ℕ) → length xs ≤ a → length ys ≤ b → length (xs ++ ys) ≤ a + b
short_append xs ys a b h l = omega (arith, length-append xs ys)

pub flags_line_short : (bits : List ℕ) → length bits ≤ 15 → length (flags_line bits) ≤ 33
flags_line_short bits h = omega (arith, short_append bits (codes "\n") 15 1 h (omega arith))

pub screen_line_short :
    (ws hs ds ps : List ℕ)
    → length ws ≤ 15
    → length hs ≤ 15
    → length ds ≤ 15
    → length ps ≤ 15
    → length (screen_line ws hs ds ps) ≤ 83
screen_line_short ws hs ds ps hw hh hd hp =
    let tail = short_append ps (codes "\n") 15 1 hp (omega arith) in
    let third =
      short_append ds (codes " bpp pitch: " ++ (ps ++ codes "\n")) 15 28 hd (omega arith) in
    let second =
      short_append hs (codes " " ++ (ds ++ (codes " bpp pitch: " ++ (ps ++ codes "\n")))) 15 44 hh
        (omega arith) in
    let first =
      short_append ws
        (codes "x" ++ (hs ++ (codes " " ++ (ds ++ (codes " bpp pitch: " ++ (ps ++ codes "\n"))))))
        15 60 hw (omega arith) in
    omega arith
