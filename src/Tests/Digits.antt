-- ===== src/Tests/Digits.antt =====
-- print_int on concrete numbers.
use ma_os.Base.{◌-◌, ◌^◌, ◌≡◌, refl, [], ◌∷◌, ok, true, arith}
use ma_os.Printf.{fill_buffer, print_int, print_unsigned, padding, backwards}
use ma_os.Printf.Numeral.{PrintsInt, print_int-PrintsInt}

-- `printf("%5d", -42)` prints two blanks behind the sign: "-  42".
minus_42 : print_int (2 ^ 32 - 42) 10 true 5 32 ≡ ok (45 ∷ 32 ∷ 32 ∷ 52 ∷ 50 ∷ [])
unfolding print_int print_unsigned fill_buffer padding backwards
minus_42 = refl

print_int-PrintsInt_example :
    PrintsInt (2 ^ 32 - 42) 10 true 5 32 (print_int (2 ^ 32 - 42) 10 true 5 32)
print_int-PrintsInt_example =
    print_int-PrintsInt (2 ^ 32 - 42) 10 5 32 true (omega arith) (omega arith)
