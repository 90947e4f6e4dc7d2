-- ===== src/Config/Needs.antt =====
-- What a NetWorker collector over REST needs, and what the single checks say of it.
use integrated_backup_monito.Prelude.{
  ◌<>◌, ℕ, zero, suc, ◌≢◌, ◌⊎◌, inl, inr, sym, ◌∙◌, ◌||◌, distinct_bools, eq_iff, arith, contains,
  String, ◌≡◌, refl, ap, Bool, true, false, Option, none, some, [], ◌∷◌, ◌==◌, string_eq,
  if◌then◌else◌,
}
use integrated_backup_monito.Prelude.Int.{ℤ, pos, negsuc, leb_ℤ}
use integrated_backup_monito.Prelude.Text.{strip, lower, ends_with}
use integrated_backup_monito.Value.{
  Float, finite, infinity, nan, Value, null, str, obj, Fields, end, field, Runtime, fields, show,
}
use integrated_backup_monito.Lookup.Result.{ok, value_error}
use integrated_backup_monito.Lookup.Models.{validate_source_networker, source_text, sources}
use integrated_backup_monito.Config.Placeholder.{
  has_unfilled_fields, has_unfilled_values, is_unfilled_placeholder,
}
use integrated_backup_monito.Config.Collector.{CollectorConfig}
use integrated_backup_monito.Config.Skip.{
  is_negative, rest_required, optional, append_required, configured_endpoints,
}

-- A text that is given, that is more than blanks, and that is no placeholder.
pub record IsFilled (value : Option String) : Type 0 where
  pub text : String
  pub given : value ≡ some text
  pub no_blank : strip text ≢ ""
  pub no_mark : strip text ≢ "TO_BE_FILLED"
  pub no_marked_end : ends_with "_TO_BE_FILLED" (strip text) ≡ false

-- A number from one on.
abbrev pub IsPositive : ℤ → Type 0
IsPositive k = (n : ℕ) × (k ≡ pos (suc n))

-- A spacing is a number of seconds from zero on, positive infinity, or not a number.
abbrev pub IsSpacing : Float → Type 0
IsSpacing x = ((m : ℕ) × (e : ℤ) × (x ≡ finite (pos m) e)) ⊎ ((x ≡ infinity false) ⊎ (x ≡ nan))

-- What a NetWorker collector over REST needs.
pub record IsReady (c : CollectorConfig) : Type 0 where
  pub concurrency : IsPositive c.rest_max_concurrency
  pub spacing : IsSpacing c.rest_request_spacing_seconds
  pub window : IsPositive c.networker_query_window_minutes
  pub jobs_window : IsPositive c.networker_jobs_query_window_minutes
  pub backups_window : IsPositive c.networker_backups_query_window_minutes
  pub source :
      (source : String) × (c.source_networker ≡ some source)
      × ((lower (strip source) ≡ "core")
          ⊎ ((lower (strip source) ≡ "chnl") ⊎ (lower (strip source) ≡ "info")))
  pub base_url : IsFilled c.base_url
  pub username : IsFilled c.username
  pub password : IsFilled c.password

pub leb_ℤ-IsPositive : (k : ℤ) → leb_ℤ k (pos 0) ≡ false → IsPositive k
leb_ℤ-IsPositive (pos zero) h = absurd (distinct_bools h)
leb_ℤ-IsPositive (pos (suc n)) h = (n, refl)
leb_ℤ-IsPositive (negsuc n) h = absurd (ground (arith, h))

pub is_negative-IsSpacing : (x : Float) → is_negative x ≡ false → IsSpacing x
is_negative-IsSpacing (finite (pos m) e) h = inl (m, e, refl)
is_negative-IsSpacing (finite (negsuc m) e) h = absurd (distinct_bools h)
is_negative-IsSpacing (infinity true) h = absurd (distinct_bools h)
is_negative-IsSpacing (infinity false) h = inr (inl refl)
is_negative-IsSpacing nan h = inr (inr refl)

either : (a b : Bool) → (a || b) ≡ false → (a ≡ false) × (b ≡ false)
either false b h = (refl, h)
either true b h = absurd (distinct_bools h)

other_than : (s t : String) → (s == t) ≡ false → s ≢ t
other_than s t h e = distinct_bools (sym ((eq_iff s t).1 e) ∙ h)

pub has_unfilled_values-IsFilled :
    (value : Option String) → has_unfilled_values (optional value) ≡ false → IsFilled value
unfolding has_unfilled_values is_unfilled_placeholder
has_unfilled_values-IsFilled none h = absurd (distinct_bools h)
has_unfilled_values-IsFilled (some s) h =
    let (marks, marked_end) =
      either (strip s == "" || strip s == "TO_BE_FILLED") (ends_with "_TO_BE_FILLED" (strip s)) h in
    let (blank, mark) = either (strip s == "") (strip s == "TO_BE_FILLED") marks in
    record {
      text = s;
      given = refl;
      no_blank = other_than (strip s) "" blank;
      no_mark = other_than (strip s) "TO_BE_FILLED" mark;
      no_marked_end = marked_end;
    }

all_filled :
    (endpoints : Fields) (base_url source username password : Value)
    → has_unfilled_fields (
        fields (
          ("base_url", base_url)
          ∷ append_required (configured_endpoints endpoints) (
              ("source_networker", source) ∷ ("username", username) ∷ ("password", password) ∷ [])))
      ≡ false
    → (has_unfilled_values base_url ≡ false)
      × (has_unfilled_values username ≡ false)
      × (has_unfilled_values password ≡ false)
unfolding has_unfilled_fields fields
all_filled end base_url source username password h =
    let (a, h1) = either (has_unfilled_values base_url) _ h in
    let (b, h2) = either (has_unfilled_values source) _ h1 in
    let (c, h3) = either (has_unfilled_values username) _ h2 in
    (a, c, (either (has_unfilled_values password) _ h3).0)
all_filled (field k v fs) base_url source username password h =
    let (a, h1) = either (has_unfilled_values base_url) _ h in
    let (e, h2) = either (has_unfilled_values (obj (field k v fs))) _ h1 in
    let (b, h3) = either (has_unfilled_values source) _ h2 in
    let (c, h4) = either (has_unfilled_values username) _ h3 in
    (a, c, (either (has_unfilled_values password) _ h4).0)

pub rest_required-filled :
    (c : CollectorConfig)
    → c.target_type ≡ "Networker"
    → has_unfilled_fields (fields (rest_required c)) ≡ false
    → (has_unfilled_values (optional c.base_url) ≡ false)
      × (has_unfilled_values (optional c.username) ≡ false)
      × (has_unfilled_values (optional c.password) ≡ false)
unfolding rest_required
rest_required-filled c e h =
    let other : (c.target_type == "i6000") ≡ false = ap (λ t. t == "i6000") e in
    let this : (c.target_type == "Networker") ≡ true = ap (λ t. t == "Networker") e in
    all_filled c.endpoints (optional c.base_url) (optional c.source_networker) (optional c.username)
      (optional c.password) (rw (other, this) at h)

known_source :
    (s message source : String)
    → (if contains s sources then ok s else value_error message) ≡ ok source
    → (s ≡ "core") ⊎ ((s ≡ "chnl") ⊎ (s ≡ "info"))
known_source s message source e =
    ground (arith, e, eq_iff s "core", eq_iff s "chnl", eq_iff s "info")

pub source-known :
    (rt : Runtime) (value : Option String) (source : String)
    → validate_source_networker rt (optional value) ≡ ok source
    → (text : String) × (value ≡ some text)
      × ((lower (strip text) ≡ "core")
          ⊎ ((lower (strip text) ≡ "chnl") ⊎ (lower (strip text) ≡ "info")))
unfolding validate_source_networker source_text
source-known rt none source h = absurd (no_source h)
  where
    no_source : value_error ("unsupported source_networker: " <> show rt null) ≡ ok source → ⊥
    no_source e = cc
source-known rt (some text) source h = (
  text,
  refl,
  known_source (lower (strip text)) ("unsupported source_networker: " <> show rt (str text)) source
      h,
)
