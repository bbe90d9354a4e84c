-- ===== src/Printf/Rounds.antt =====
-- One round of the loop of `vprintf`.
use ma_os.Base.{ℕ, suc, ◌≡◌, refl, none, some, List, [], ◌∷◌, Outcome, ok, ◌>>=◌, length}
use ma_os.Printf.Format.{
  Arg, Directive, before, parse_directive, next_piece, literal, conversion, Converted, convert,
  unknown_specifier, vprintf,
}

module _ (rounds c : ℕ) (format : List ℕ) (args : List Arg) where
  pub literal_round :
      (text behind : List ℕ)
      → next_piece c format ≡ literal text behind
      → vprintf (suc rounds) (c ∷ format) args
        ≡ (vprintf rounds behind args >>= λ rest. ok (before text (length text) rest))
  unfolding vprintf
  literal_round text behind e = rw e refl

  module _ (directive : List ℕ) (d : Directive) (piece : next_piece c format ≡ conversion directive)
      (parsed : parse_directive directive ≡ ok d) where
    pub conversion_round :
        (result : Outcome Converted)
        → convert d args ≡ some result
        → vprintf (suc rounds) (c ∷ format) args ≡ (
            result >>= λ converted. vprintf rounds d.behind converted.args >>= λ rest.
            ok (before converted.bytes converted.written rest))
    unfolding vprintf
    conversion_round result e = rw (piece, parsed, e) refl

    pub default_round :
        convert d args ≡ none
        → vprintf (suc rounds) (c ∷ format) args ≡ (
            vprintf rounds unknown_specifier [] >>= λ complaint.
            vprintf rounds d.behind args >>= λ rest. ok (before complaint.bytes 0 rest))
    unfolding vprintf
    default_round e = rw (piece, parsed, e) refl
