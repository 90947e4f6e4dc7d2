-- ===== src/Value/Example.antt =====
-- A runtime for the tests, whose parsers of dates accept one text.
use integrated_backup_monito.Prelude.{◌==◌, string_eq, false, none, some, if◌then◌else◌}
use integrated_backup_monito.Prelude.Int.{pos}
use integrated_backup_monito.Value.{Runtime, aware}

abbrev pub plain : Runtime
plain = record {
  repr = λ v. "";
  from_isoformat =
      λ s. if s == "2026-01-02T03:04:05+00:00" then some (aware 172800000000 (pos 0)) else none;
  isoformat = λ d. "2026-01-02T03:04:05+00:00";
  parse_float = λ s. none;
  float_of_int = λ n. none;
  thousandth = λ x. x;
  abs_ge = λ x n. false;
  from_timestamp = λ x. none;
  sha256_json = λ v. "digest";
  sha256_text = λ s. "digest";
  strftime = λ pattern t. "2026-01";
}
