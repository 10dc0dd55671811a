-- ===== src/Logging/Tests.antt =====
-- A list of two tags of Logging/src/logging.cpp, "NW+FD".
use network_structure.Logging.Print.{log_print-is_wanted, after_filter, is_wanted}
use network_structure.Logging.{
  printed, log_print_level, called, tagged, syslogged, Log, blocked, log_print, not_listed, plus,
}
use network_structure.Logging.Tags.{blocked_lem, fields, is_among}
use network_structure.Prelude.{
  ℕ, ◌≡◌, refl, true, not, none, some, List, [], ◌∷◌, map, arith, ◌==◌, if◌then◌else◌,
}

abbrev two_tags : List ℕ
two_tags = 78 ∷ 87 ∷ plus ∷ 70 ∷ 68 ∷ []

abbrev two_tag_log : Log
two_tag_log = record { log_level = 3; log_tag = some two_tags; callbacks = 4 ∷ [] }

-- The comparison does not ignore the case, though the comment says so.
lower_case_blocked : not_listed true (102 ∷ 100 ∷ []) two_tags ≡ some true
unfolding not_listed
lower_case_blocked = refl

-- Without a tag the filter lets the message through, and a string is made of the null pointer.
no_tag_undefined : log_print true 3 none (65 ∷ []) two_tag_log ≡ none
unfolding log_print
no_tag_undefined = refl

second_tag_sent :
    log_print true 3 (some (70 ∷ 68 ∷ [])) (65 ∷ []) two_tag_log
    ≡ some (syslogged 3 (70 ∷ 68 ∷ 58 ∷ 32 ∷ 65 ∷ []) ∷ called 4 (65 ∷ []) ∷ [], two_tag_log)
unfolding log_print
second_tag_sent = refl

blocked_lem_example :
    blocked 6 (70 ∷ 68 ∷ []) two_tags ≡ some (not (is_among (70 ∷ 68 ∷ []) (fields two_tags)))
blocked_lem_example = blocked_lem 70 (68 ∷ []) 6 two_tags (omega arith)

log_print-is_wanted_example :
    log_print true 3 (some (70 ∷ 68 ∷ [])) (65 ∷ []) two_tag_log
    ≡ some (
      if is_wanted 3 (70 ∷ 68 ∷ []) two_tag_log
          then syslogged 3 (tagged (70 ∷ 68 ∷ []) (65 ∷ []))
            ∷ map (λ c. called c (65 ∷ [])) (4 ∷ [])
          else (if 3 == log_print_level then printed (70 ∷ 68 ∷ []) (65 ∷ []) ∷ [] else []),
      after_filter 3 two_tag_log,
    )
log_print-is_wanted_example = log_print-is_wanted 3 (70 ∷ 68 ∷ []) (65 ∷ []) two_tag_log refl
