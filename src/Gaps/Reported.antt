-- ===== src/Gaps/Reported.antt =====
-- openmux/server/config_gaps.py: which gaps a reload summary reports, each once.
use openmux_server.Base.{
  ◌≡◌, refl, true, false, ◌||◌, none, some, List, [], ◌∷◌, ◌++◌, same_refl, arith,
}
use openmux_server.Gaps.Unique.{ConfigGap, Key, gap_key, same_key, seen}

pub same_key_refl : (k : Key) → same_key k k ≡ true
unfolding same_key
same_key_refl (s, none, e) = ground (arith, same_refl s, same_refl e)
same_key_refl (s, some p, e) = ground (arith, same_refl s, same_refl p, same_refl e)

pub seen-append : (k : Key) (gs hs : List ConfigGap) → seen k (gs ++ hs) ≡ (seen k gs || seen k hs)
seen-append k [] hs = refl
seen-append k (g ∷ gs) hs = ground (arith, seen-append k gs hs)

-- No two gaps have one key.
unfoldable pub NoRepeats : List ConfigGap → Type 0
NoRepeats [] = Unit
NoRepeats (g ∷ gs) = (seen (gap_key g) gs ≡ false) × NoRepeats gs
