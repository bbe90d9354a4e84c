-- ===== src/Printf/Unknown.antt =====
-- A specifier that `vprintf` does not know.
use ma_os.Base.{
  ℕ, zero, suc, ◌≡◌, ◌≢◌, refl, ◌∙◌, false, none, List, [], ◌∷◌, ok, unfinished, arith, ◌==◌,
}
use ma_os.Printf.Rounds.{default_round}
use ma_os.Printf.Format.{
  Arg, Directive, first_or_zero, parse_directive, parse_uint, accept, next_piece, text_of,
  behind_text, conversion, convert, unknown_specifier, vprintf,
}

-- The complaint ends in `%c`, which is itself unknown.
complaint_unfinished : (rounds : ℕ) → vprintf rounds unknown_specifier [] ≡ unfinished
unfolding vprintf next_piece text_of behind_text parse_directive parse_uint accept convert
complaint_unfinished zero = refl
complaint_unfinished (suc zero) = refl
complaint_unfinished (suc (suc rounds)) = rw (complaint_unfinished rounds) refl

abbrev pub IsUnknown : ℕ → Type 0
IsUnknown c = (c ≢ b's') × (c ≢ b'd') × (c ≢ b'x') × (c ≢ b'b') × (c ≢ b'f')

IsUnknown-convert :
    (d : Directive) (args : List Arg) → IsUnknown d.specifier → convert d args ≡ none
unfolding convert
IsUnknown-convert d args unknown = ground arith

percent-conversion :
    (format : List ℕ) → first_or_zero format ≢ b'%' → next_piece b'%' format ≡ conversion format
unfolding next_piece
percent-conversion format ne =
    let one : (first_or_zero format == b'%') ≡ false = ground arith in rw one refl

-- A directive with an unknown specifier never ends, however many rounds are made: the error message
-- is printed by a format that has an unknown specifier in turn.
pub vprintf_unfinished :
    (rounds : ℕ) (format : List ℕ) (args : List Arg) (d : Directive)
    → first_or_zero format ≢ b'%'
    → parse_directive format ≡ ok d
    → IsUnknown d.specifier
    → vprintf rounds (b'%' ∷ format) args ≡ unfinished
unfolding vprintf next_piece
vprintf_unfinished zero format args d ne parsed unknown = refl
vprintf_unfinished (suc rounds) format args d ne parsed unknown =
    default_round rounds b'%' format args format d (percent-conversion format ne) parsed
      (IsUnknown-convert d args unknown)
    ∙ rw (complaint_unfinished rounds) refl
