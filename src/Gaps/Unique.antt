-- ===== src/Gaps/Unique.antt =====
-- openmux/server/config_gaps.py: a gap, and `unique_gaps`.
use openmux_server.Base.{
  Bool, true, false, ◌&&◌, Option, none, some, List, [], ◌∷◌, ◌++◌, any, Text, same, if◌then◌else◌,
}

pub record ConfigGap : Type 0 where
  pub section : Text
  pub port : Option Text
  pub error : Text
  pub kept_previous : Bool

-- What identifies a gap: its section, its port, and its error where there is no port.
abbrev pub Key : Type 0
Key = Text × Option Text × Text

abbrev pub key_of : Option Text → Text → Text → Key
key_of none s e = (s, none, e)
key_of (some p) s e = (s, some p, [])

abbrev pub gap_key : ConfigGap → Key
gap_key g = key_of g.port g.section g.error

abbrev pub same_port : Option Text → Option Text → Bool
same_port none none = true
same_port none (some q) = false
same_port (some p) none = false
same_port (some p) (some q) = same p q

unfoldable pub same_key : Key → Key → Bool
same_key (s, p, e) (t, q, f) = same s t && same_port p q && same e f

abbrev pub seen : Key → List ConfigGap → Bool
seen k = any (λ g. same_key k (gap_key g))

-- The loop of `unique_gaps`, with the gaps that are kept so far.
unfoldable pub add_gaps : List ConfigGap → List ConfigGap → List ConfigGap
unfolding same_key
add_gaps kept [] = kept
add_gaps kept (g ∷ gs) = add_gaps (if seen (gap_key g) kept then kept else kept ++ g ∷ []) gs

unfoldable pub unique_gaps : List ConfigGap → List ConfigGap
unfolding add_gaps
unique_gaps = add_gaps []
