-- ===== src/Text/Examples.antt =====
-- Runs of the printer and the parser, and their theorems, at concrete inputs.
use photesthesis.Shared.{◌≡◌, refl, true, false, [], ◌∷◌, ◌++◌, codes, arith}
use photesthesis.Shared.Ints.{negsuc}
use photesthesis.Value.{Value, nil, sym, bool, int64, string, of_list}
use photesthesis.Symbol.{is_symbol_char, is_alnum, is_digit}
use photesthesis.Text.RoundTrip.{IsPrintable, parse_value-print_value}
use photesthesis.Text.Stream.{
  open_text, peek, peek_rest, skip_spaces, is_space, scan_whitespace, take_run,
}
use photesthesis.Text.Digits.{digits, digit_char, digit_value, read_digits}
use photesthesis.Text.Printer.{print_value, print_int, escape, print_blob}
use photesthesis.Text.Parser.{
  parse_value, parse_default, parse_special, finish_special, special, read_string, read_blob,
  close_list, read_int64, fit_int64, skip_prefix, take_sign, Parsed, ok,
}

-- What a run of the printer, and of the parser, unfolds.
print_run : Unit {0}
unfolding print_value print_int escape print_blob digits digit_char of_list
print_run = tt

parse_run : Unit {0}
unfolding parse_value parse_default parse_special finish_special special read_string read_blob
    close_list read_int64 fit_int64 skip_prefix take_sign peek peek_rest skip_spaces is_space
    scan_whitespace take_run read_digits digit_value of_list is_symbol_char
parse_run = tt

abbrev sample : Value
sample = of_list (
    sym (codes "expr")
    ∷ of_list (int64 (negsuc 41) ∷ string (codes "a\"b") ∷ [])
    ∷ bool true
    ∷ nil
    ∷ [])

print_sample : (print_value false sample).0 ≡ codes "(expr (-42 \"a\\\"b\") #t #nil)"
unfolding print_run
print_sample = refl

parse_sample : Parsed Value
unfolding parse_run
parse_sample = parse_value 100 nil (open_text (codes "(expr (-42 \"a\\\"b\") #t #nil) "))

parse_stuck : Parsed Value
unfolding parse_run
parse_stuck = parse_value 20 nil (open_text (codes "(+"))

parse_blob : Parsed Value
unfolding parse_run
parse_blob = parse_value 20 nil (open_text (codes "([0x1] 10 )"))

sample-IsPrintable : IsPrintable sample
unfolding IsPrintable of_list is_symbol_char is_alnum is_digit
sample-IsPrintable =
    (record { legal = refl; starts = refl }, ((omega arith, (tt, tt)), (tt, (tt, tt))))

parse_value-print_value_example :
    parse_value 100 nil (open_text ((print_value false sample).0 ++ 10 ∷ []))
    ≡ ok sample (open_text (10 ∷ []))
parse_value-print_value_example =
    parse_value-print_value sample nil 100 10 [] sample-IsPrintable
      (unfold print_value print_int escape digits digit_char of_list in omega arith)
      (unfold is_space in refl)
