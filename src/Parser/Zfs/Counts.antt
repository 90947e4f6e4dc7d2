-- ===== src/Parser/Zfs/Counts.antt =====
-- What the summary of a ZFS device counts.
use mathlib.Core.Path.{subst}
use mathlib.Core.Option.{some-injective}
use integrated_backup_monito.Prelude.Chain.{bind-some}
use integrated_backup_monito.Prelude.{
  ℕ, ◌+◌, String, ◌≡◌, refl, ap, some, List, [], ◌∷◌, ◌++◌, ◌==◌, string_eq, length, arith,
  if◌then◌else◌,
}
use integrated_backup_monito.Prelude.Int.{pos}
use integrated_backup_monito.Prelude.Dict.{lookup}
use integrated_backup_monito.Value.{int, Fields, Runtime, get, find, fields}
use integrated_backup_monito.Parser.Common.{items}
use integrated_backup_monito.Parser.Networker.Counter.{counter, occurrences}
use integrated_backup_monito.Parser.Networker.Counter.Laws.{lookup-count_into}
use integrated_backup_monito.Parser.Zfs.{Arithmetic, first_mapping, rows_of}
use integrated_backup_monito.Parser.Zfs.Rows.{
  pool_row, log_row, normalize_logs, normalize_pools, normalize_filesystems, normalize_luns,
}
use integrated_backup_monito.Parser.Zfs.Payload.{
  ZfsPayload, severities_of, severity_count, zfs_summary, device_of, parse_zfs_rest_payload,
}

length-rows_of : (f : Fields → Fields) (fs : List Fields) → length (rows_of f fs) ≡ length fs
unfolding rows_of
length-rows_of f [] = refl
length-rows_of f (x ∷ fs) = omega (arith, length-rows_of f fs)

-- How often a severity stands in the rows of logs, and in two lists of rows.
occurrences-log_rows :
    (rt : Runtime) (severity other device_name : String) (logs : List Fields)
    → occurrences severity (severities_of (rows_of (log_row rt other device_name) logs))
      ≡ (if severity == other then length logs else 0)
unfolding rows_of severities_of log_row get find fields
occurrences-log_rows rt severity other device_name [] = ground arith
occurrences-log_rows rt severity other device_name (log ∷ logs) =
    ground (arith, occurrences-log_rows rt severity other device_name logs)

occurrences-append :
    (severity : String) (rows others : List Fields)
    → occurrences severity (severities_of (rows ++ others))
      ≡ occurrences severity (severities_of rows) + occurrences severity (severities_of others)
unfolding severities_of
occurrences-append severity [] others = omega arith
occurrences-append severity (r ∷ rows) others =
    omega (arith, occurrences-append severity rows others)

abbrev pub logs_at : String → Fields → ℕ
logs_at key payloads = length (items (get key payloads) "logs")

module _ (rt : Runtime) (payloads : Fields) (device_name : String) where
  abbrev all_logs : List Fields
  all_logs =
      normalize_logs rt (get "alert_logs" payloads) "alert" device_name
      ++ normalize_logs rt (get "fault_logs" payloads) "fault" device_name

  severity_counted :
      (severity : String)
      → severity_count severity all_logs
        ≡ (if severity == "alert" then logs_at "alert_logs" payloads else 0)
          + (if severity == "fault" then logs_at "fault_logs" payloads else 0)
  unfolding severity_count counter normalize_logs lookup
  severity_counted severity = omega (
    arith,
    lookup-count_into severity (severities_of all_logs) [],
    occurrences-append severity (normalize_logs rt (get "alert_logs" payloads) "alert" device_name)
        (normalize_logs rt (get "fault_logs" payloads) "fault" device_name),
    occurrences-log_rows rt severity "alert" device_name (items (get "alert_logs" payloads) "logs"),
    occurrences-log_rows rt severity "fault" device_name (items (get "fault_logs" payloads) "logs"),
  )

-- The counts of a summary
abbrev pub IsCounting : Fields → ZfsPayload → Type 0
IsCounting payloads result =
    (get "alert_count" result.summary ≡ int (pos (logs_at "alert_logs" payloads)))
    × (get "fault_count" result.summary ≡ int (pos (logs_at "fault_logs" payloads)))
    × (get "pool_count" result.summary ≡ int (pos (length (items (get "pools" payloads) "pools"))))
    × (get "filesystem_count" result.summary ≡ int (pos (length result.filesystems)))
    × (get "lun_count" result.summary ≡ int (pos (length result.luns)))

-- Where the parser of ZFS answers returns, its summary counts the dicts among the alert logs and among the
-- fault logs, each its own, and the pools of the answers, and the rows of file systems and of LUNs.
pub parse_zfs_rest_payload-IsCounting :
    (rt : Runtime) (a : Arithmetic) (payloads : Fields) (fallback_name : String)
    (result : ZfsPayload)
    → parse_zfs_rest_payload rt a payloads fallback_name ≡ some result
    → IsCounting payloads result
unfolding parse_zfs_rest_payload zfs_summary get find fields normalize_pools
parse_zfs_rest_payload-IsCounting rt a payloads fallback_name result e =
    let device_name =
      device_of rt (first_mapping (get "version" payloads) "version") fallback_name in
    let (filesystems, _, e1) =
      bind-some (normalize_filesystems rt payloads device_name) _ result e in
    let (luns, _, e2) = bind-some (normalize_luns rt payloads device_name) _ result e1 in
    subst (IsCounting payloads) (some-injective _ result e2) (
      ap (λ n. int (pos n)) (omega (arith, severity_counted rt payloads device_name "alert")),
      ap (λ n. int (pos n)) (omega (arith, severity_counted rt payloads device_name "fault")),
      ap (λ n. int (pos n))
          (length-rows_of (pool_row rt a payloads device_name)
            (items (get "pools" payloads) "pools")),
      refl,
      refl,
    )
