-- ===== src/Logging.antt =====
-- Logging/src/logging.cpp. A string of the source is the list of its characters, and a null pointer
-- is `none`. Where a result is an `Option`, `none` is where the source is undefined.
pub mod Tags
pub mod Print
mod Tests
use network_structure.Prelude.{
  ℕ, zero, suc, Bool, true, false, ◌&&◌, Option, none, some, List, [], ◌∷◌, ◌++◌, map, ltb, leb,
  ◌==◌, if◌then◌else◌, ◌>>=◌, length,
}

-- LOG_PRINT and LOG_NONE
abbrev pub log_print_level : ℕ
log_print_level = 8

abbrev pub log_none : ℕ
log_none = 9

abbrev pub plus : ℕ
plus = 43

-- strcmp(3) gives 0.
unfoldable pub same_string : List ℕ → List ℕ → Bool
same_string [] [] = true
same_string [] (d ∷ t) = false
same_string (c ∷ s) [] = false
same_string (c ∷ s) (d ∷ t) = c == d && same_string s t

-- strtok(3) for the separator: what is left of the separators at the start, and the token and what
-- follows it where something is left.
unfoldable pub skip : List ℕ → List ℕ
skip [] = []
skip (c ∷ s) = if c == plus then skip s else c ∷ s

unfoldable pub token : List ℕ → List ℕ
token [] = []
token (c ∷ s) = if c == plus then [] else c ∷ token s

unfoldable pub after_token : List ℕ → List ℕ
after_token [] = []
after_token (c ∷ s) = if c == plus then s else after_token s

unfoldable pub cut : List ℕ → Option (List ℕ × List ℕ)
unfolding token after_token
cut [] = none
cut (c ∷ s) = some (token (c ∷ s), after_token (c ∷ s))

abbrev pub strtok : List ℕ → Option (List ℕ × List ℕ)
strtok s = cut (skip s)

-- The `while`, for at most so many tokens, from the string that strtok(3) has still to read. The
-- result is `filteredOut`.
unfoldable pub blocked : ℕ → List ℕ → List ℕ → Option Bool
unfolding same_string skip cut
blocked zero tag s = none
blocked (suc fuel) tag s = elim (strtok s) [
  | none ↦ some true
  | some (current, rest) ↦
      let next = blocked fuel tag rest in if same_string current tag then some false else next
]

-- `callbacks` holds the callbacks' numbers.
pub record Log : Type 0 where
  pub log_level : ℕ
  pub log_tag : Option (List ℕ)
  pub callbacks : List ℕ

-- `if(log_tag==NULL) log_tag="";`
unfoldable pub tag_list : Log → List ℕ
tag_list l = elim l.log_tag [ none ↦ [] | some s ↦ s ]

-- The list of tags is searched: `room` says that malloc(3) gives the copy.
unfoldable pub not_listed : Bool → List ℕ → List ℕ → Option Bool
unfolding blocked
not_listed room tag [] = some false
not_listed false tag (c ∷ s) = some true
not_listed true tag (c ∷ s) = blocked (suc (length (c ∷ s))) tag (c ∷ s)

unfoldable pub tag_is_filtered : Bool → Option (List ℕ) → List ℕ → Option Bool
unfolding not_listed
tag_is_filtered room none s = some false
tag_is_filtered room (some []) s = some false
tag_is_filtered room (some (c ∷ tag)) s = not_listed room (c ∷ tag) s

unfoldable pub message_is_filtered_out : Bool → ℕ → Option (List ℕ) → Log → Option (Bool × Log)
unfolding tag_list tag_is_filtered
message_is_filtered_out room level tag l =
    if ltb l.log_level level
    then some (true, l)
    else (tag_is_filtered room tag (tag_list l) >>= λ b.
        some (b, record l { log_tag = some (tag_list l) }))

-- What a message causes: the output of printf(3), a call of vsyslog(3), and of a callback.
pub data LogEvent : Type 0 where
  printed : List ℕ → List ℕ → LogEvent
  syslogged : ℕ → List ℕ → LogEvent
  called : ℕ → List ℕ → LogEvent

unfoldable pub on_filtered : ℕ → Option (List ℕ) → List ℕ → Option (List LogEvent)
on_filtered level none format = if level == log_print_level then none else some []
on_filtered level (some tag) format =
    some (if level == log_print_level then printed tag format ∷ [] else [])

-- `new_format`
unfoldable pub tagged : List ℕ → List ℕ → List ℕ
tagged [] format = format
tagged (c ∷ tag) format = c ∷ tag ++ (58 ∷ 32 ∷ format)

unfoldable pub on_allowed : ℕ → Option (List ℕ) → List ℕ → Log → Option (List LogEvent)
unfolding tagged
on_allowed level none format l = none
on_allowed level (some tag) format l = some (
    if leb level l.log_level
    then syslogged level (tagged tag format) ∷ map (λ c. called c format) l.callbacks
    else [])

unfoldable pub log_print : Bool → ℕ → Option (List ℕ) → List ℕ → Log → Option (List LogEvent × Log)
unfolding message_is_filtered_out on_filtered on_allowed
log_print room level tag format l =
    if level == log_none
    then some ([], l)
    else (message_is_filtered_out room level tag l >>= λ r.
        (if r.0 then on_filtered level tag format else on_allowed level tag format r.1) >>= λ es.
        some (es, r.1))

unfoldable pub log_set_level : ℕ → Log → Log
log_set_level level l = record l { log_level = level }

unfoldable pub log_set_tag : Option (List ℕ) → Log → Log
log_set_tag tag l = record l { log_tag = tag }

unfoldable pub log_register_callback : ℕ → Log → Log
log_register_callback f l = record l { callbacks = l.callbacks ++ f ∷ [] }
