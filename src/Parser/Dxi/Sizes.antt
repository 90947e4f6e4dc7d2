-- ===== src/Parser/Dxi/Sizes.antt =====
-- apps/parsers/dxi_cli_parser.py: what is searched in a text, and the sizes and the ratios. `Regex`, a
-- parameter, is the module `re`, and `Scale` the products and quotients of floats. None of a result is
-- an exception that the parser does not catch: a number with two points, a unit that has no exponent,
-- an overflow.
use integrated_backup_monito.Prelude.{
  ℕ, String, ◌<>◌, Option, none, some, List, [], ◌∷◌, string_eq, if◌then◌else◌,
}
use integrated_backup_monito.Prelude.Chain.{◌>>=◌}
use integrated_backup_monito.Prelude.Int.{ℤ}
use integrated_backup_monito.Prelude.Dict.{Dict, lookup}
use integrated_backup_monito.Prelude.Text.{strip, upper, has_infix}
use integrated_backup_monito.Value.{Float, Value, int, real, null, Fields, Runtime, fields, truthy}
use integrated_backup_monito.Parser.Common.{value_or_null}

pub record Regex : Type 0 where
  -- `re.search(pattern, text, flags=re.IGNORECASE | re.MULTILINE)`: its first group
  pub search : String → String → Option String
  -- `re.escape`
  pub escape : String → String
  -- `re.split(r"^\*{5,}\s*$", text, flags=re.MULTILINE)`
  pub blocks : String → List String
  -- `re.match(r"([\d.]+)\s*([KMGTPE]?i?B)", text, flags=re.IGNORECASE)`: its groups
  pub size_parts : String → Option (String × String)

pub record Scale : Type 0 where
  -- `int(round(x * base**exponent))`
  pub round_bytes : Float → ℕ → ℕ → Option ℤ
  -- `round((used / total) * 100, 3)`
  pub percent : ℤ → ℤ → Option Float
  -- `x * 1_000_000`
  pub million : Float → Float

module _ (rx : Regex) where
  -- `_first_match`
  unfoldable pub first_match : String → List String → Option String
  unfolding strip
  first_match text [] = none
  first_match text (pattern ∷ patterns) =
      let rest = first_match text patterns in
      elim (rx.search pattern text) [ some group ↦ some (strip group) | none ↦ rest ]

-- The exponents of the units
abbrev pub exponents : Dict String ℕ
exponents =
    ("B", 0)
    ∷ ("KB", 1)
    ∷ ("KIB", 1)
    ∷ ("MB", 2)
    ∷ ("MIB", 2)
    ∷ ("GB", 3)
    ∷ ("GIB", 3)
    ∷ ("TB", 4)
    ∷ ("TIB", 4)
    ∷ ("PB", 5)
    ∷ ("PIB", 5)
    ∷ ("EB", 6)
    ∷ ("EIB", 6)
    ∷ []

module _ (rt : Runtime) (rx : Regex) (scale : Scale) where
  abbrev pub sized : Option (String × String) → Option (Option ℤ)
  sized none = some none
  sized (some (number, unit)) = do
    x ← rt.parse_float number
    exponent ← lookup (upper unit) exponents
    n ← scale.round_bytes x (if has_infix "IB" (upper unit) then 1024 else 1000) exponent
    some (some n)

  -- `_parse_size`
  unfoldable pub parse_size : Option String → Option (Option ℤ)
  unfolding strip upper has_infix lookup
  parse_size none = some none
  parse_size (some text) = sized (rx.size_parts (strip text))

  -- `_size_field`
  unfoldable pub size_field : String → String → Option (Option ℤ)
  unfolding parse_size first_match
  size_field text label = parse_size (
      first_match rx text
        (("^\\s*-?\\s*" <> (rx.escape label <> "\\s*=\\s*([\\d.]+\\s*[KMGTPE]?i?B)")) ∷ []))

  abbrev pub float_or_none : Option String → Option Float
  float_or_none none = none
  float_or_none (some s) = rt.parse_float s

  -- `_ratio_field`
  unfoldable pub ratio_field : String → String → Option Float
  unfolding first_match
  ratio_field text label = float_or_none (
      first_match rx text
        (("^\\s*-?\\s*" <> (rx.escape label <> "\\s*=\\s*([\\d.]+)\\s*:\\s*1")) ∷ []))

  abbrev pub percent_of : Option ℤ → Option ℤ → Option Value
  percent_of (some total) (some used) =
      if truthy (int total) then (do x ← scale.percent used total; some (real x)) else some null
  percent_of none used = some null
  percent_of (some total) none = some null

  -- `_parse_capacity`
  unfoldable pub parse_capacity : String → Option Fields
  unfolding size_field fields truthy
  parse_capacity text = do
    total ← size_field text "Disk Capacity"
    available ← size_field text "Available Disk Space"
    free ← size_field text "Free Space"
    reclaimable ← size_field text "Reclaimable Space"
    used ← size_field text "Used Disk Space"
    deduplicated ← size_field text "Deduplicated Data"
    metadata ← size_field text "System Metadata"
    not_deduplicated ← size_field text "Data Not Intended for Deduplication"
    used_percent ← percent_of total used
    some (
        fields (
          ("total_bytes", value_or_null int total)
          ∷ ("used_bytes", value_or_null int used)
          ∷ ("available_bytes", value_or_null int available)
          ∷ ("free_bytes", value_or_null int free)
          ∷ ("reclaimable_bytes", value_or_null int reclaimable)
          ∷ ("deduplicated_bytes", value_or_null int deduplicated)
          ∷ ("metadata_bytes", value_or_null int metadata)
          ∷ ("not_deduplicated_bytes", value_or_null int not_deduplicated)
          ∷ ("used_percent", used_percent)
          ∷ []))

  -- `_parse_data_reduction`; the second component is the ratio that the payload has once more.
  unfoldable pub parse_data_reduction : String → Option (Fields × Value)
  unfolding size_field ratio_field fields
  parse_data_reduction text = do
    before ← size_field text "Data Size Before Reduction"
    after ← size_field text "Data Size After Reduction"
    let deduplication = value_or_null real (ratio_field text "Deduplication Ratio")
    some (
      fields (
          ("before_bytes", value_or_null int before)
          ∷ ("after_bytes", value_or_null int after)
          ∷ ("total_reduction_ratio", value_or_null real (ratio_field text "Total Reduction Ratio"))
          ∷ ("deduplication_ratio", deduplication)
          ∷ ("compression_ratio", value_or_null real (ratio_field text "Compression Ratio"))
          ∷ []),
      deduplication,
    )
