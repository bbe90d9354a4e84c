-- ===== src/Tests/Texts.antt =====
-- Strings in memory, and formats.
use ma_os.Base.{
  ℕ, zero, suc, ◌+◌, ◌≢◌, ◌<◌, ◌==◌, if◌then◌else◌, ◌≡◌, refl, inl, inr, true, false, List, [], ◌∷◌,
  ok, unfinished, arith, codes,
}
use ma_os.CString.{Memory, Placed, memcpy, strdup}
use ma_os.CString.Duplicate.{Duplicates, strdup-Duplicates}
use ma_os.CString.Copy.{Copied, memcpy-Copied}
use ma_os.Printf.{print_int, print_unsigned, fill_buffer, padding, backwards}
use ma_os.Printf.Format.{
  Directive, int, str, vprintf, run_piece, run_conversion, next_piece, text_of, behind_text,
  parse_directive, parse_uint, accept, convert, convert_int, convert_str, convert_hex, high_half,
}
use ma_os.Printf.Items.{Item, char, string, hex8, render}
use ma_os.Printf.Render.{vprintf-render}
use ma_os.Printf.Unknown.{vprintf_unfinished}

-- Byte `a` holds the low digits of its address.
abbrev memory : Memory
memory a = a

memcpy-Copied_example : Copied 100 200 19 memory (memcpy 100 200 19 memory)
memcpy-Copied_example = memcpy-Copied 100 200 19 memory (omega arith) (inl (omega arith))

abbrev items : List Item
items = char b'a' ∷ string (codes "bc") ∷ hex8 255 ∷ []

vprintf-render_example :
    vprintf 3 (codes "a%s%08x") (str (codes "bc") ∷ int 255 ∷ []) ≡ render items
vprintf-render_example = vprintf-render 3 items (omega arith, tt) (omega arith)

-- The numbers do not count.
rendered : render items ≡ ok record { bytes = codes "abc000000FF"; written = 3 }
unfolding print_int print_unsigned fill_buffer padding backwards
rendered = refl

abbrev unknown_c : Directive
unknown_c = record {
  sig = true;
  large = false;
  pad_char = b' ';
  width = 0;
  precision = 6;
  specifier = b'c';
  behind = [];
}

vprintf_unfinished_example : vprintf 50 (codes "%c") [] ≡ unfinished
unfolding parse_directive parse_uint accept
vprintf_unfinished_example =
    vprintf_unfinished 50 (codes "c") [] unknown_c (omega arith) refl
      (omega arith, omega arith, omega arith, omega arith, omega arith)

-- A padded string, whose padding does not count either, and a long hexadecimal number whose low half is not padded.
padded :
    vprintf 20 (codes "[%4s] %lx") (str (codes "ab") ∷ int 10 ∷ int 1 ∷ [])
    ≡ ok record { bytes = codes "[  ab] 1A"; written = 5 }
unfolding vprintf run_piece run_conversion next_piece text_of behind_text parse_directive parse_uint
    accept convert convert_str convert_int convert_hex high_half print_int print_unsigned
    fill_buffer padding backwards
padded = refl

-- "ab" at 100.
abbrev two_bytes : Memory
two_bytes a = if a == 100 then b'a' else if a == 101 then b'b' else 0

abbrev at_200 : ℕ → Memory → Placed
at_200 size m = record { pointer = 200; memory = m }

bytes-two_bytes : (k : ℕ) → k < 2 → two_bytes (100 + k) ≢ 0
bytes-two_bytes zero h = omega arith
bytes-two_bytes (suc zero) h = omega arith
bytes-two_bytes (suc (suc k)) h = absurd (omega arith)

strdup-Duplicates_example :
    Duplicates 100 2 two_bytes (at_200 3 two_bytes) (strdup at_200 10 100 two_bytes)
strdup-Duplicates_example =
    strdup-Duplicates at_200 10 100 2 two_bytes record { bytes = bytes-two_bytes; end = refl }
      (omega arith) (omega arith) (λ k h. refl) (λ ne. inr (omega arith))
