-- ===== src/Gaps.antt =====
-- openmux/server/config_gaps.py: what of a config file the running server does not apply.
pub mod Reported
pub mod Unique
mod Tests
use openmux_server.Base.{
  Bool, true, false, ◌&&◌, ◌||◌, Option, none, some, List, [], ◌∷◌, ◌++◌, map, any, Text, codes,
  same, strip, if◌then◌else◌,
}
use openmux_server.Gaps.Unique.{ConfigGap, same_port, unique_gaps}
use openmux_server.Policy.Yaml.{
  Value, null, boolean, integer, float, text, list, mapping, Items, Fields, no_field, field, values,
  get, is_truthy, str,
}

-- `_as_list` of `d.get(key)`.
unfoldable pub as_list : Option Value → List Value
as_list none = []
as_list (some null) = []
as_list (some (boolean b)) = boolean b ∷ []
as_list (some (integer n)) = integer n ∷ []
as_list (some (float b n)) = float b n ∷ []
as_list (some (text t)) = text t ∷ []
as_list (some (list vs)) = values vs
as_list (some (mapping d)) = mapping d ∷ []

abbrev pub fields_or_none : Option Value → Fields
fields_or_none none = no_field
fields_or_none (some null) = no_field
fields_or_none (some (boolean b)) = no_field
fields_or_none (some (integer n)) = no_field
fields_or_none (some (float b n)) = no_field
fields_or_none (some (text t)) = no_field
fields_or_none (some (list vs)) = no_field
fields_or_none (some (mapping d)) = d

abbrev truth : Option Value → Bool
truth none = false
truth (some v) = is_truthy v

-- Python's `==` of a text and an element of a list.
abbrev is_text : Text → Value → Bool
is_text name null = false
is_text name (boolean b) = false
is_text name (integer n) = false
is_text name (float b n) = false
is_text name (text t) = same name t
is_text name (list vs) = false
is_text name (mapping d) = false

module _ (repr : Value → Text) where
  -- `_text`
  unfoldable pub text_of : Value → Text
  unfolding str strip
  text_of null = []
  text_of (boolean b) = strip (str repr (boolean b))
  text_of (integer n) = strip (str repr (integer n))
  text_of (float b n) = strip (str repr (float b n))
  text_of (text t) = strip t
  text_of (list vs) = strip (str repr (list vs))
  text_of (mapping d) = strip (str repr (mapping d))

  unfoldable pub text_or_blank : Option Value → Text
  unfolding text_of
  text_or_blank none = []
  text_or_blank (some v) = text_of v

  -- The port gap of one name in `failed` or `refused`; the detail may tell more.
  unfoldable pub failed_gap : Text → Fields → Text → ConfigGap
  unfolding get is_truthy text_or_blank as_list
  failed_gap section result name =
      let entry = fields_or_none (get name (fields_or_none (get (codes "failed_detail") result))) in
      record {
        section = section;
        port = some name;
        error = text_or_blank (get (codes "error") entry);
        kept_previous =
            truth (get (codes "kept_previous") entry)
            || any (is_text name) (as_list (get (codes "kept_previous") result));
      }

  abbrev violation_gap : Text → Value → ConfigGap
  violation_gap section v = record {
    section = section;
    port = none;
    error = text_of v;
    kept_previous = false;
  }

  abbrev pub kept_gap : Text → Text → ConfigGap
  kept_gap section name = record {
    section = section;
    port = some name;
    error = codes "no reason recorded";
    kept_previous = true;
  }

  -- Whether a gap of the section names the port.
  abbrev pub is_gap_of : Text → Text → ConfigGap → Bool
  is_gap_of section name g = same g.section section && same_port (some name) g.port

  -- The ports of `kept_previous` that no gap of the section names yet.
  unfoldable pub add_kept : Text → List Text → List ConfigGap → List ConfigGap
  add_kept section [] gaps = gaps
  add_kept section (n ∷ ns) gaps =
      add_kept section ns
        (if any (is_gap_of section n) gaps then gaps else gaps ++ kept_gap section n ∷ [])

  abbrev error_gap : Text → Option Value → List ConfigGap
  error_gap section none = []
  error_gap section (some v) = if is_truthy v then violation_gap section v ∷ [] else []

  unfoldable pub names_at : Text → Fields → List Text
  unfolding get as_list text_of
  names_at key result = map text_of (as_list (get key result))

  -- `_extract_adapter_gaps` of a result that is a mapping.
  unfoldable pub extract_fields : Text → Fields → List ConfigGap → List ConfigGap
  unfolding names_at failed_gap add_kept is_truthy get as_list text_of
  extract_fields section result gaps =
      add_kept section (names_at (codes "kept_previous") result) (
        gaps
        ++ map (violation_gap section) (as_list (get (codes "violations") result))
        ++ map (failed_gap section result)
            (names_at (codes "failed") result ++ names_at (codes "refused") result))
      ++ error_gap section (get (codes "error") result)

  abbrev pub extract_value : Text → Value → List ConfigGap → List ConfigGap
  extract_value section null gaps = gaps
  extract_value section (boolean b) gaps = gaps
  extract_value section (integer n) gaps = gaps
  extract_value section (float b n) gaps = gaps
  extract_value section (text t) gaps = gaps
  extract_value section (list vs) gaps = gaps
  extract_value section (mapping d) gaps = extract_fields section d gaps

  abbrev pub text_else : Text → Text → Text
  text_else [] t = t
  text_else (c ∷ s) t = c ∷ s

  -- The adapters of a summary, in order.
  unfoldable pub extract_adapters : Fields → List ConfigGap → List ConfigGap
  unfolding extract_fields strip
  extract_adapters no_field gaps = gaps
  extract_adapters (field s v d) gaps =
      extract_adapters d (extract_value (text_else (strip s) (codes "unknown")) v gaps)

  abbrev reason_keys : List Text
  reason_keys = codes "error" ∷ codes "start_error" ∷ codes "stop_error" ∷ codes "wire_error" ∷ []

  abbrev timeout_keys : List (Text × Text)
  timeout_keys =
      (codes "start_timeout", codes "start timed out after")
      ∷ (codes "stop_timeout", codes "stop timed out after")
      ∷ []

  abbrev timeout_reason : Text → Value → Text
  timeout_reason sentence v = sentence ++ codes " " ++ text_of v ++ codes "s"

  -- The first of the keys that an entry has.
  abbrev reason_of : List Text → Fields → Option Text
  reason_of [] d = none
  reason_of (k ∷ ks) d = elim (get k d) [ none ↦ reason_of ks d | some v ↦ some (text_of v) ]

  abbrev timeout_of : List (Text × Text) → Fields → Option Text
  timeout_of [] d = none
  timeout_of ((k, sentence) ∷ ks) d = elim (get k d) [
    | none ↦ timeout_of ks d
    | some v ↦ some (timeout_reason sentence v)
  ]

  abbrev named_gap : Text → Text → ConfigGap
  named_gap where_it error = record {
    section = where_it;
    port = none;
    error = error;
    kept_previous = false;
  }

  abbrev found_gap : Text → Fields → Option Text → Option Text → ConfigGap
  found_gap where_it d (some reason) o = named_gap where_it reason
  found_gap where_it d none (some reason) = named_gap where_it reason
  found_gap where_it d none none = named_gap (codes "adapter") (text_of (mapping d))

  -- `_gap_from_reload_error`
  unfoldable pub gap_from_reload_error : Value → ConfigGap
  unfolding text_of get text_or_blank
  gap_from_reload_error null = named_gap (codes "adapter") (text_of null)
  gap_from_reload_error (boolean b) = named_gap (codes "adapter") (text_of (boolean b))
  gap_from_reload_error (integer n) = named_gap (codes "adapter") (text_of (integer n))
  gap_from_reload_error (float b n) = named_gap (codes "adapter") (text_of (float b n))
  gap_from_reload_error (text t) = named_gap (codes "adapter") (text_of (text t))
  gap_from_reload_error (list vs) = named_gap (codes "adapter") (text_of (list vs))
  gap_from_reload_error (mapping d) =
      found_gap
        (text_else (text_or_blank (get (codes "adapter") d))
          (text_else (text_or_blank (get (codes "phase") d)) (codes "adapter")))
        d (reason_of reason_keys d) (timeout_of timeout_keys d)

  -- The gaps of a summary before repeats are left out.
  unfoldable pub all_gaps : Fields → List ConfigGap
  unfolding extract_adapters gap_from_reload_error as_list get
  all_gaps d = extract_adapters (fields_or_none (get (codes "adapters") d)) (
      map (violation_gap (codes "schema"))
        (as_list (get (codes "config_violations") d) ++ as_list (get (codes "violations") d))
      ++ map gap_from_reload_error (as_list (get (codes "errors") d)))

  unfoldable pub violations_from_summary : Value → List ConfigGap
  unfolding all_gaps unique_gaps
  violations_from_summary null = []
  violations_from_summary (boolean b) = []
  violations_from_summary (integer n) = []
  violations_from_summary (float b n) = []
  violations_from_summary (text t) = []
  violations_from_summary (list vs) = []
  violations_from_summary (mapping d) = unique_gaps (all_gaps d)
