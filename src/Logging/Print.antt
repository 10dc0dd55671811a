-- ===== src/Logging/Print.antt =====
-- Which messages `log_print` of Logging/src/logging.cpp lets through, and to whom.
use network_structure.Logging.{
  printed, log_print_level, called, tagged, syslogged, log_none, on_allowed, on_filtered, Log,
  message_is_filtered_out, not_listed, log_print, tag_is_filtered, tag_list,
}
use network_structure.Logging.Tags.{blocked_lem, fields, is_among}
use network_structure.Prelude.{
  ℕ, suc, ◌≡◌, refl, inl, inr, Bool, true, false, not, ◌&&◌, ◌||◌, some, List, [], ◌∷◌, map, arith,
  ltb, leb, ◌==◌, if◌then◌else◌, Bool-cases, length,
}

abbrev pub is_empty : List ℕ → Bool
is_empty [] = true
is_empty (c ∷ s) = false

-- The level of a message is not above the one that is set, and its tag, in the same case, is in the
-- list, where both are there.
unfoldable pub is_wanted : ℕ → List ℕ → Log → Bool
unfolding is_among fields tag_list
is_wanted level tag l =
    leb level l.log_level
    && (is_empty tag || is_empty (tag_list l) || is_among tag (fields (tag_list l)))

-- The state after the filter.
unfoldable pub after_filter : ℕ → Log → Log
unfolding tag_list
after_filter level l = if ltb l.log_level level then l else record l { log_tag = some (tag_list l) }

tag_is_filtered_lem :
    (tag s : List ℕ)
    → tag_is_filtered true (some tag) s
      ≡ some (not (is_empty tag || is_empty s || is_among tag (fields s)))
unfolding tag_is_filtered not_listed
tag_is_filtered_lem [] s = refl
tag_is_filtered_lem (a ∷ tag) [] = refl
tag_is_filtered_lem (a ∷ tag) (c ∷ s) =
    blocked_lem a tag (suc (length (c ∷ s))) (c ∷ s) (omega arith)

-- Where malloc(3) gives the copy of the list, a message with a tag and a level other than LOG_NONE
-- goes to syslog, under its tag, and to each callback in the order of their registration where its
-- level is not above the one that is set, also below LOG_ERR, and its tag is among those of the
-- list, in the same case, or one of the two is empty; to printf alone where that is not so and its
-- level is LOG_PRINT; and nowhere otherwise.
pub log_print-is_wanted :
    (level : ℕ) (tag format : List ℕ) (l : Log)
    → (level == log_none) ≡ false
    → log_print true level (some tag) format l
      ≡ some (
        if is_wanted level tag l
            then syslogged level (tagged tag format) ∷ map (λ c. called c format) l.callbacks
            else (if level == log_print_level then printed tag format ∷ [] else []),
        after_filter level l,
      )
unfolding log_print message_is_filtered_out is_wanted after_filter on_filtered on_allowed
log_print-is_wanted level tag format l h = elim (Bool-cases (ltb l.log_level level)) [
  | inl i ↦ ground (arith, h, i)
  | inr i ↦
      let e = tag_is_filtered_lem tag (tag_list l) in
      elim (Bool-cases
        (is_empty tag || is_empty (tag_list l) || is_among tag (fields (tag_list l)))) [
          | inl j ↦ ground (arith, h, i, e, j)
          | inr j ↦ ground (arith, h, i, e, j)
        ]
]
