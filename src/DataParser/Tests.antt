-- ===== src/DataParser/Tests.antt =====
-- The data parser at concrete commands.
use network_structure.Prelude.{◌≡◌, refl, true, false, [], ◌∷◌, some}
use network_structure.Prelude.Int.{pos, minus_one}
use network_structure.DataParser.{Parsing, process_data, menu, allena, decode_set}

-- The ':' is at 14 and the value is 1.
abbrev test_parsing : Parsing
test_parsing = record {
  size = λ s. 17;
  find_string = λ s h. 0;
  find_character_forward = λ s c. 14;
  convert_hex_to_number = λ s i j. (268431361, 8);
  to_end = λ s i. (0, 0);
  convert_to_number = λ s i. (pos 1, 1);
  print_int = λ i. [];
  menu_type_int = 0;
}

-- "US" and "DE".
sensor_asked :
    process_data test_parsing true (85 ∷ 83 ∷ []) [] ≡ some (menu (allena 49) ∷ [], pos 1)
unfolding process_data
sensor_asked = refl

decoder_asked :
    process_data test_parsing true (68 ∷ 69 ∷ []) []
    ≡ some (decode_set 268431361 (pos 1) ∷ [], pos 1)
unfolding process_data
decoder_asked = refl

not_configured : process_data test_parsing false (85 ∷ 83 ∷ []) [] ≡ some ([], minus_one)
unfolding process_data
not_configured = refl
