-- ===== src/DataParser.antt =====
-- Network/src/DataParser.cpp: the commands that arrive from the host, and what they ask of the
-- reader. The string class HSTRING and the reader are not in the repository: `Parsing` is what the
-- code uses of the first, and the calls of the second are kept as a list, newest first.
pub mod Commands
mod Tests
use network_structure.Prelude.{
  ℕ, ◌+◌, ◌%◌, ◌^◌, ◌==◌, ltb, Bool, true, false, List, [], ◌∷◌, ◌++◌, Option, none, some,
  if◌then◌else◌, ◌>>=◌,
}
use network_structure.Prelude.Int.{ℤ, pos, minus_one, eq_ℤ}

-- `Menu`, `DecodeSet` and `DecodeGet`.
pub data Action : Type 0 where
  menu : List ℕ → Action
  decode_set : ℕ → ℤ → Action
  decode_get : ℕ → Action

-- `find_string s h` is the place of `h` in `s`, and `find_character_forward s c` that of `c`, or
-- the size where it is not there. The conversions return the number and how many characters they
-- used; `to_end` is the one without an end. `print_int` is `%d`.
pub record Parsing : Type 0 where
  pub size : List ℕ → ℕ
  pub find_string : List ℕ → List ℕ → ℕ
  pub find_character_forward : List ℕ → ℕ → ℕ
  pub convert_hex_to_number : List ℕ → ℕ → ℕ → ℕ × ℕ
  pub to_end : List ℕ → ℕ → ℕ × ℕ
  pub convert_to_number : List ℕ → ℕ → ℤ × ℕ
  pub print_int : ℤ → List ℕ
  pub menu_type_int : ℕ

-- "DECSET", "USRCMD", "ALLENA0!", "ALLENA1!", "PDCFEX", "PDCFGX", '.' and ':'
abbrev pub decset : List ℕ
decset = 68 ∷ 69 ∷ 67 ∷ 83 ∷ 69 ∷ 84 ∷ []

abbrev pub usrcmd : List ℕ
usrcmd = 85 ∷ 83 ∷ 82 ∷ 67 ∷ 77 ∷ 68 ∷ []

abbrev pub allena : ℕ → List ℕ
allena digit = 65 ∷ 76 ∷ 76 ∷ 69 ∷ 78 ∷ 65 ∷ digit ∷ 33 ∷ []

abbrev pub pdcf : ℕ → List ℕ
pdcf letter = 80 ∷ 68 ∷ 67 ∷ 70 ∷ letter ∷ 88 ∷ []

module _ (parsing : Parsing) where
  -- `if (numUsed < 8) tag += MENU_TYPE_INT;` on a 32-bit tag.
  abbrev pub full_tag : ℕ × ℕ → ℕ
  full_tag (tag, used) = if ltb used 8 then (tag + parsing.menu_type_int) % 2 ^ 32 else tag

  -- What `ParseDecoder` does with a command that has a value.
  unfoldable pub set_value : ℕ → ℤ × ℕ → List Action → List Action
  set_value tag (value, used) acts = if used == 0 then acts else decode_set tag value ∷ acts

  -- `ParseDecoder`; `false` is 0 and `true` is 1.
  unfoldable pub parse_decoder : List ℕ → List Action → List Action × ℤ
  unfolding set_value
  parse_decoder [] acts = (acts, pos 0)
  parse_decoder (b ∷ bs) acts =
      let data_ = b ∷ bs in
      let start = parsing.find_string data_ decset + 6 in
      let semi = parsing.find_character_forward data_ 58 in
      (
        if semi == parsing.size data_
            then decode_get (full_tag (parsing.to_end data_ start)) ∷ acts
            else set_value (full_tag (parsing.convert_hex_to_number data_ start semi))
                (parsing.convert_to_number data_ (semi + 1)) acts,
        pos 1,
      )

  -- The `switch` of `ParseSensorSettingData`.
  unfoldable pub sensor_command : ℕ → ℤ → List Action → List Action
  sensor_command tag value acts =
      if tag == 268431361
      then (if eq_ℤ value (pos 0)
          then menu (allena 48) ∷ acts
          else (if eq_ℤ value (pos 1) then menu (allena 49) ∷ acts else acts))
      else (if tag == 268431362
          then menu (pdcf 69 ++ parsing.print_int value ++ 46 ∷ []) ∷ acts
          else (if tag == 268431363
              then menu (pdcf 71 ++ parsing.print_int value ++ 46 ∷ []) ∷ acts
              else acts))

  unfoldable pub sensor_value : ℕ → ℤ × ℕ → List Action → List Action
  unfolding sensor_command
  sensor_value tag (value, used) acts = if used == 0 then acts else sensor_command tag value acts

  unfoldable pub parse_sensor_setting_data : List ℕ → List Action → List Action × ℤ
  unfolding sensor_value
  parse_sensor_setting_data [] acts = (acts, pos 0)
  parse_sensor_setting_data (b ∷ bs) acts =
      let buffer = b ∷ bs in
      let start = parsing.find_string buffer usrcmd + 6 in
      let semi = parsing.find_character_forward buffer 58 in
      (
        if semi == parsing.size buffer
            then acts
            else sensor_value (parsing.convert_hex_to_number buffer start semi).0
                (parsing.convert_to_number buffer (semi + 1)) acts,
        pos 1,
      )

  -- `(buf[0] == a) && (buf[1] == b)`; `none` where that reads behind the buffer.
  abbrev pub begins : ℕ → ℕ → List ℕ → Option Bool
  begins a b [] = none
  begins a b (x ∷ []) = if x == a then none else some false
  begins a b (x ∷ y ∷ bs) = some (if x == a then y == b else false)

  -- The three ways of `ProcessData(char *, int)`.
  unfoldable pub dispatch : Bool → Bool → List ℕ → List Action → List Action
  unfolding parse_decoder parse_sensor_setting_data
  dispatch true sensor buf acts = (parse_decoder buf acts).0
  dispatch false true buf acts = (parse_sensor_setting_data buf acts).0
  dispatch false false buf acts = menu buf ∷ acts

  -- `configured` says whether `pReaderConfiguration` is set.
  unfoldable pub process_data : Bool → List ℕ → List Action → Option (List Action × ℤ)
  unfolding dispatch
  process_data false buf acts = some (acts, minus_one)
  process_data true buf acts = do
    decoder ← begins 68 69 buf
    sensor ← if decoder then some false else begins 85 83 buf
    some (dispatch decoder sensor buf acts, pos 1)
