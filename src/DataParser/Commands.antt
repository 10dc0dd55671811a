-- ===== src/DataParser/Commands.antt =====
-- What one command makes the reader do.
use network_structure.Prelude.{
  ℕ, ◌+◌, ◌≤◌, ◌≡◌, refl, ◌==◌, Bool, true, false, List, [], ◌∷◌, ◌++◌, some, if◌then◌else◌, length,
  arith,
}
use network_structure.Prelude.Int.{ℤ, pos, minus_one, eq_ℤ}
use network_structure.DataParser.{
  Action, menu, decode_set, decode_get, usrcmd, decset, full_tag, Parsing, set_value,
  sensor_command, sensor_value, parse_decoder, parse_sensor_setting_data, dispatch, process_data,
}

-- At most one action on top of the old ones.
record Adds (old new : List Action) : Type 0 where
  actions : List Action
  on_top : new ≡ actions ++ old
  one : length actions ≤ 1

Adds-none : (old : List Action) → Adds old old
Adds-none old = record { actions = []; on_top = refl; one = ground arith }

Adds-one : (a : Action) (old : List Action) → Adds old (a ∷ old)
Adds-one a old = record { actions = a ∷ []; on_top = refl; one = ground arith }

Adds-if :
    (b : Bool) (old x y : List Action) → Adds old x → Adds old y → Adds old (if b then x else y)
Adds-if true old x y p q = p
Adds-if false old x y p q = q

module _ (parsing : Parsing) where
  sensor_command-Adds :
      (tag : ℕ) (value : ℤ) (acts : List Action) → Adds acts (sensor_command parsing tag value acts)
  unfolding sensor_command
  sensor_command-Adds tag value acts =
      Adds-if (tag == 268431361) acts _ _
        (Adds-if (eq_ℤ value (pos 0)) acts _ _ (Adds-one _ acts)
          (Adds-if (eq_ℤ value (pos 1)) acts _ _ (Adds-one _ acts) (Adds-none acts)))
        (Adds-if (tag == 268431362) acts _ _ (Adds-one _ acts)
          (Adds-if (tag == 268431363) acts _ _ (Adds-one _ acts) (Adds-none acts)))

  sensor_value-Adds :
      (tag : ℕ) (v : ℤ × ℕ) (acts : List Action) → Adds acts (sensor_value parsing tag v acts)
  unfolding sensor_value
  sensor_value-Adds tag (value, used) acts =
      Adds-if (used == 0) acts _ _ (Adds-none acts) (sensor_command-Adds tag value acts)

  sensor-Adds :
      (buf : List ℕ) (acts : List Action) → Adds acts (parse_sensor_setting_data parsing buf acts).0
  unfolding parse_sensor_setting_data
  sensor-Adds [] acts = Adds-none acts
  sensor-Adds (b ∷ bs) acts =
      let semi = parsing.find_character_forward (b ∷ bs) 58 in
      let start = parsing.find_string (b ∷ bs) usrcmd + 6 in
      Adds-if (semi == parsing.size (b ∷ bs)) acts _ _ (Adds-none acts) (
        sensor_value-Adds (parsing.convert_hex_to_number (b ∷ bs) start semi).0
          (parsing.convert_to_number (b ∷ bs) (semi + 1)) acts)

  set_value-Adds :
      (tag : ℕ) (v : ℤ × ℕ) (acts : List Action) → Adds acts (set_value parsing tag v acts)
  unfolding set_value
  set_value-Adds tag (value, used) acts =
      Adds-if (used == 0) acts _ _ (Adds-none acts) (Adds-one (decode_set tag value) acts)

  decoder-Adds : (buf : List ℕ) (acts : List Action) → Adds acts (parse_decoder parsing buf acts).0
  unfolding parse_decoder
  decoder-Adds [] acts = Adds-none acts
  decoder-Adds (b ∷ bs) acts =
      let semi = parsing.find_character_forward (b ∷ bs) 58 in
      let start = parsing.find_string (b ∷ bs) decset + 6 in
      let tag = full_tag parsing (parsing.convert_hex_to_number (b ∷ bs) start semi) in
      Adds-if (semi == parsing.size (b ∷ bs)) acts _ _
        (Adds-one (decode_get (full_tag parsing (parsing.to_end (b ∷ bs) start))) acts)
        (set_value-Adds tag (parsing.convert_to_number (b ∷ bs) (semi + 1)) acts)

  dispatch-Adds :
      (d s : Bool) (buf : List ℕ) (acts : List Action) → Adds acts (dispatch parsing d s buf acts)
  unfolding dispatch
  dispatch-Adds true s buf acts = decoder-Adds buf acts
  dispatch-Adds false true buf acts = sensor-Adds buf acts
  dispatch-Adds false false buf acts = Adds-one (menu buf) acts

  -- `ProcessData` of any buffer of two bytes or more, with the reader's configuration set, returns,
  -- and returns 1, whether or not the command could be read; the reader is asked for at most one
  -- thing, after all that it was asked for before. Without the configuration it is asked for
  -- nothing, and -1 is returned.
  process_data-Adds :
      (x y : ℕ) (rest : List ℕ) (acts : List Action)
      → ((new : List Action) × (process_data parsing true (x ∷ y ∷ rest) acts ≡ some (new, pos 1))
          × Adds acts new)
        × (process_data parsing false (x ∷ y ∷ rest) acts ≡ some (acts, minus_one))
  unfolding process_data
  process_data-Adds x y rest acts = (go _ _ refl refl, refl)
    where
      go :
          (d s : Bool)
          → (if x == 68 then y == 69 else false) ≡ d
          → (if x == 85 then y == 83 else false) ≡ s
          → (new : List Action) × (process_data parsing true (x ∷ y ∷ rest) acts
              ≡ some (new, pos 1))
            × Adds acts new
      go true s e f = (
        dispatch parsing true false (x ∷ y ∷ rest) acts,
        rw e refl,
        dispatch-Adds true false (x ∷ y ∷ rest) acts,
      )
      go false s e f = (
        dispatch parsing false s (x ∷ y ∷ rest) acts,
        rw e (rw f refl),
        dispatch-Adds false s (x ∷ y ∷ rest) acts,
      )
