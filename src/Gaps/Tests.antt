-- ===== src/Gaps/Tests.antt =====
-- openmux/server/config_gaps.py: a reload summary that tells of two ports.
use openmux_server.Base.{◌≡◌, refl, List, [], ◌∷◌, map, length, Option, some, Text, codes, same}
use openmux_server.Gaps.{violations_from_summary, all_gaps}
use openmux_server.Policy.Yaml.{Value, text, list, mapping, no_item, item, Fields, no_field, field}

abbrev no_text : Value → Text
no_text v = []

abbrev failed_twice : Fields
failed_twice =
    field (codes "failed")
      (list (item (text (codes "tty1")) (item (text (codes " tty1 ")) no_item)))
      (field (codes "kept_previous") (list (item (text (codes "tty2")) no_item)) no_field)

abbrev summary : Fields
summary =
    field (codes "adapters") (mapping (field (codes "serial") (mapping failed_twice) no_field))
      no_field

all_gaps-summary : length (all_gaps no_text summary) ≡ 3
unfolding all_gaps same
all_gaps-summary = refl

ports_of : List (Option Text)
unfolding violations_from_summary
ports_of = map (λ g. g.port) (violations_from_summary no_text (mapping summary))

ports_of_lem : ports_of ≡ some (codes "tty1") ∷ some (codes "tty2") ∷ []
unfolding ports_of violations_from_summary same
ports_of_lem = refl
