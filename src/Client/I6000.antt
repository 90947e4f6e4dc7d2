-- ===== src/Client/I6000.antt =====
-- apps/clients/i6000_rest_client.py. How the login, a request and the logout end are parameters, and so
-- are the parsers of JSON and XML; the requests stand in the order in which they are begun.
-- `_session_lock` lets one session end before the next begins, so that each is a run of its own.
pub mod Xml
pub mod Sessions
mod Tests
use integrated_backup_monito.Prelude.{
  String, Bool, true, false, ◌&&◌, ◌||◌, not, Option, none, some, List, [], ◌∷◌, ◌++◌, ◌==◌,
  string_eq, if◌then◌else◌,
}
use integrated_backup_monito.Prelude.Dict.{Dict}
use integrated_backup_monito.Prelude.Text.{is_empty, strip, lower, has_infix, begins_with}
use integrated_backup_monito.Value.{Value, str, obj, Fields, end, field}
use integrated_backup_monito.Client.Plan.{select}
use integrated_backup_monito.Client.I6000.Xml.{Element, xml_to_obj}
use integrated_backup_monito.Collector.Collect.{Gathered, result, cancelled, exception, fetch_named}

abbrev i6000_default_endpoints : Dict String String
i6000_default_endpoints =
    ("ping", "aml/")
    ∷ ("physical_library", "aml/physicalLibrary")
    ∷ ("status", "aml/physicalLibrary/status")
    ∷ ("drives", "aml/drives")
    ∷ ("media", "aml/media?start=0&length=-1")
    ∷ (
      "segments_storage_used",
      "aml/physicalLibrary/segments?type=storage&status=used&start=0&length=-1",
    )
    ∷ (
      "segments_storage_available",
      "aml/physicalLibrary/segments?type=storage&status=available&start=0&length=-1",
    )
    ∷ ("towers", "aml/devices/towers")
    ∷ ("ie_stations", "aml/devices/ieStations")
    ∷ ("ras_status", "aml/system/ras")
    ∷ ("ras_tickets", "aml/system/ras/tickets")
    ∷ []

abbrev pub i6000_fast_endpoints : List String
i6000_fast_endpoints =
    "ping" ∷ "status" ∷ "drives" ∷ "segments_storage_used" ∷ "segments_storage_available"
    ∷ "ras_status" ∷ "ras_tickets" ∷ []

abbrev pub i6000_slow_endpoints : List String
i6000_slow_endpoints = "physical_library" ∷ "media" ∷ "towers" ∷ "ie_stations" ∷ []

-- `self.config.endpoints or DEFAULT_ENDPOINTS`
abbrev pub or_default_endpoints : Dict String String → Dict String String
or_default_endpoints [] = i6000_default_endpoints
or_default_endpoints (e ∷ es) = e ∷ es

-- `_endpoints_for_class`
unfoldable pub i6000_endpoints_for_class : Dict String String → Option String → Dict String String
unfolding select
i6000_endpoints_for_class endpoints none = endpoints
i6000_endpoints_for_class endpoints (some class) =
    select (if class == "fast" then i6000_fast_endpoints else i6000_slow_endpoints) endpoints

pub record Response : Type 0 where
  -- `response.headers.get("content-type", "")`
  pub content_type : String
  pub text : String

-- What a parser makes of a text: a value, or the text of its exception.
pub data Parsed {ℓ} (A : Type ℓ) : Type ℓ where
  value : A → Parsed A
  raised : String → Parsed A

abbrev pub as_value : Parsed Element → Parsed Value
as_value (value e) = value (obj (xml_to_obj e))
as_value (raised text) = raised text

module _ (json : String → Parsed Value) (from_string : String → Parsed Element) where
  -- `_decode_response`; 123, 91 and 60 are the codes of the brackets that open JSON and XML.
  unfoldable pub decode_response : Response → Parsed Value
  unfolding strip has_infix lower begins_with
  decode_response response =
      let text = strip response.text in
      if has_infix "json" (lower response.content_type)
      then json response.text
      else if begins_with 123 text || begins_with 91 text
      then json response.text
      else if begins_with 60 text
      then as_value (from_string text)
      else value (obj (field "body" (str text) end))

  abbrev pub as_gathered : Parsed Value → Gathered Value
  as_gathered (value v) = result v
  as_gathered (raised text) = exception text

  -- `_get`: the exceptions of the request and of `raise_for_status` are its end.
  unfoldable pub decoded : Gathered Response → Gathered Value
  unfolding decode_response
  decoded (result response) = as_gathered (decode_response response)
  decoded cancelled = cancelled
  decoded (exception text) = exception text

-- How `client.delete` of the logout ends.
pub data Logout : Type 0 where
  answered : Logout
  http_error : Logout
  other_error : String → Logout
  interrupted : Logout

pub data Request : Type 0 where
  log_in : Request
  get : String → Request
  log_out : Request

-- `self.config.username and self.config.password`
abbrev pub has_text : Option String → Bool
has_text none = false
has_text (some s) = not (is_empty s)

abbrev pub gets : Dict String String → List Request
gets [] = []
gets ((name, endpoint) ∷ rest) = get endpoint ∷ gets rest

module _ {ℓ} {A : Type ℓ} where
  abbrev pub fetch_end : Option A → Gathered A
  fetch_end none = cancelled
  fetch_end (some a) = result a

  -- `_logout`, in the `finally`: an `HTTPError` is passed over, any other exception takes the place of
  -- what the `try` ended with.
  abbrev pub logged_out : Logout → Gathered A → Gathered A
  logged_out answered fetched = fetched
  logged_out http_error fetched = fetched
  logged_out (other_error text) fetched = exception text
  logged_out interrupted fetched = cancelled

  -- The requests, and the end of the session.
  unfoldable pub session :
      Bool
      → Gathered (Unit {0})
      → Dict String String
      → Gathered A
      → Logout
      → List Request × Gathered A
  session false login endpoints fetched logout = (gets endpoints, fetched)
  session true (result _) endpoints fetched logout =
      (log_in ∷ (gets endpoints ++ log_out ∷ []), logged_out logout fetched)
  session true cancelled endpoints fetched logout = (log_in ∷ [], cancelled)
  session true (exception text) endpoints fetched logout = (log_in ∷ [], exception text)

module _ (json : String → Parsed Value) (from_string : String → Parsed Element)
    (send : String → Gathered Response) where
  -- The gathered calls of `_get`.
  unfoldable pub get_each : Dict String String → List (String × Gathered Value)
  unfolding decoded
  get_each [] = []
  get_each ((name, endpoint) ∷ rest) =
      (name, decoded json from_string (send endpoint)) ∷ get_each rest

  -- `fetch_payloads`: the payloads and the errors of `fetch_named`.
  unfoldable pub i6000_fetch_payloads :
      (username password : Option String)
      → Gathered (Unit {0})
      → Logout
      → Dict String String
      → Option String
      → List Request × Gathered (Dict String Value × Dict String String)
  unfolding session get_each i6000_endpoints_for_class fetch_named
  i6000_fetch_payloads username password login logout configured class =
      let endpoints = i6000_endpoints_for_class (or_default_endpoints configured) class in
      session (has_text username && has_text password) login endpoints
        (fetch_end (fetch_named (get_each endpoints) ([], []))) logout
