-- ===== src/Lib.antt =====
-- A model of the backup dashboard collector, the Python program under apps/.
--
-- The program polls backup devices on a schedule (apps/scheduler.py), fetches each one's data
-- (apps/clients, apps/collectors), writes a raw and a status document and the documents derived from
-- the raw one (apps/writers, apps/processors), and builds from NetWorker's raw documents a lookup that
-- names the policy, workflow and protection group of each backup action (apps/lookups/networker_action).
--
-- - Prelude: shared names and what Python's texts, lists, sets and dicts do. Value: Python's values,
--   with `Runtime`, a parameter for what the interpreter and its libraries do (parsers and printers of
--   dates and numbers, SHA-256).
-- - Schedule: `ScheduleConfig` of apps/core/config.py and `seconds_until_next_run` of
--   apps/scheduler.py. Times are microseconds without an upper bound.
-- - Lookup: apps/lookups/networker_action. Models is models.py, Normalize normalize.py, Extract
--   extract.py, Jobs validate.py, Builder and Document aggregate.py (`add_raw` and `add_jobs`;
--   `build` and `_document`), and Store the `InMemoryLookupStore` of adapters.py. Errors are the
--   texts of the exceptions; a step that raises returns `refused` or a failed result. Scan is its
--   `ElasticsearchReadAdapter`: what the transport answers to its n-th search and what closing
--   a point in time raises are parameters.
-- - Config: apps/core/config.py but for `load_config`: Collector (the configurations and schedules),
--   Placeholder, Skip (`skip_reason` and what it calls) and Parse. `Loader`, a parameter, is the
--   conversions to numbers and the reading of secret files.
-- - Parser: apps/parsers/networker_rest_parser.py: Common, Networker (texts, sizes and statuses),
--   Records, Counter, Summary, Monthly (`_build_monthly_report`) and Payload. `Platform`, a
--   parameter, is `int`, the products and quotients of floats, shlex and the clock; one reading of
--   the clock serves all rows of a report. Its functions on dates are those of Derived.
--   I6000 is i6000_rest_parser.py (`_find_values`; Parts, Ras and Payload), and Zfs
--   zfs_rest_parser.py (Rows and Payload), whose sums and quotients of floats are the parameter
--   `Arithmetic`. Dxi is dxi_cli_parser.py (Sizes, and Payload: `parse_dxi_cli_outputs`); the patterns of a line of
--   a record are functions of the text, the others are texts that the parameter `Regex` reads. Dd is
--   dd_snmp_parser.py: the tables by instance, and Payload; the search of a number is a parameter.
-- - Derived: apps/processors/derived.py, with RunKey (`_workflow_run_key`), Records, Networker and
--   Documents (`iter_derived_documents`). A generator is the list of what it yields.
-- - Writer: apps/models.py and apps/writers/elasticsearch.py, the bulk actions of a result.
-- - Client: apps/clients/networker_rest_client.py, with Plan, Retry (`_get_json`) and Fetch
--   (`fetch_payloads`). How an attempt ends is a parameter. Zfs is zfs_rest_client.py: how each
--   request of its four rounds ends is a parameter, and so is `quote` of urllib.parse. I6000 is
--   i6000_rest_client.py with its session, and Xml its `_xml_to_obj`; the parsers of JSON and of XML
--   texts are parameters. Snmp is snmp_client.py and DxiCli dxi_cli_client.py: what the libraries of
--   SNMP and SSH answer is a parameter, for DxiCli also what closing a connection raises.
-- - Collector: apps/collectors/base.py and factory.py, the payloads of the collectors
--   (Payloads, and Devices for DXi and Data Domain), `fetch_named` of apps/clients/rest_client.py,
--   and of apps/scheduler.py the last results (Status), the runs of one collector under its lock, as a
--   list of events in any order (Lock: `run_once` collects without the lock and is none of them), and the loops of all collectors and classes, as the list of
--   their turns in the order of their ends (Loop). What a turn awaits is a parameter.
--
-- Texts: `lower` and `upper` change the letters of ASCII, and the Kelvin sign; other letters stay. The
-- configured retries are not negative.
--
-- Bounds: the digits of a number are printed with as much fuel as the number plus one, and each round
-- divides it by ten. The retries count down from the configured number plus one, as the source's
-- range does. No other recursion has fuel.
--
-- Not modelled: HTTP, SSH, SNMP, Elasticsearch and YAML, which are libraries; metrics and the log; the
-- event loop; the start of the program and its HTTP routes (apps/main.py, apps/api).
pub mod Prelude
pub mod Value
pub mod Schedule
pub mod Lookup
pub mod Derived
pub mod Writer
pub mod Client
pub mod Collector
pub mod Config
pub mod Parser
