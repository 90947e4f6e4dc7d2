-- ===== src/Client/I6000/Sessions.antt =====
-- The sessions of the i6000 client, and what they bring back.
use integrated_backup_monito.Prelude.{
  String, ◌≡◌, refl, ap, ◌∙◌, Bool, true, false, ◌&&◌, Option, none, some, List, [], ◌∷◌, ◌++◌,
  ◌==◌, string_eq, if◌then◌else◌,
}
use integrated_backup_monito.Prelude.Dict.{Dict, lookup, insert, lookup-insert}
use integrated_backup_monito.Value.{Value}
use integrated_backup_monito.Collector.Collect.{Gathered, result, cancelled, exception, fetch_named}
use integrated_backup_monito.Client.I6000.Xml.{Element}
use integrated_backup_monito.Client.I6000.{
  Response, Parsed, Logout, answered, http_error, other_error, interrupted, Request, log_in, get,
  log_out, has_text, gets, fetch_end, logged_out, session, get_each, i6000_endpoints_for_class,
  or_default_endpoints, i6000_fetch_payloads,
}

-- Without credentials, outside a session, and in one.
pub data Stand : Type 0 where
  anonymous : Stand
  outside : Stand
  inside : Stand

-- What a request is allowed to do; `opens` tells whether the login is accepted.
abbrev pub next : Bool → Stand → Request → Option Stand
next opens anonymous (get endpoint) = some anonymous
next opens anonymous log_in = none
next opens anonymous log_out = none
next opens outside log_in = some (if opens then inside else outside)
next opens outside (get endpoint) = none
next opens outside log_out = none
next opens inside (get endpoint) = some inside
next opens inside log_out = some outside
next opens inside log_in = none

abbrev pub follow : Bool → Option Stand → List Request → Option Stand
follow opens none requests = none
follow opens (some stand) [] = some stand
follow opens (some stand) (r ∷ requests) = follow opens (next opens stand r) requests

abbrev pub accepts : Gathered (Unit {0}) → Bool
accepts (result _) = true
accepts cancelled = false
accepts (exception text) = false

gets-anonymous :
    (opens : Bool) (endpoints : Dict String String)
    → follow opens (some anonymous) (gets endpoints) ≡ some anonymous
gets-anonymous opens [] = refl
gets-anonymous opens ((name, endpoint) ∷ rest) = gets-anonymous opens rest

gets-inside :
    (opens : Bool) (endpoints : Dict String String)
    → follow opens (some inside) (gets endpoints ++ log_out ∷ []) ≡ some outside
gets-inside opens [] = refl
gets-inside opens ((name, endpoint) ∷ rest) = gets-inside opens rest

-- Where a session begins and ends.
abbrev pub home : Bool → Stand
home true = outside
home false = anonymous

session-follow :
    {A : Type 0} (credentials : Bool) (login : Gathered (Unit {0})) (endpoints : Dict String String)
    (fetched : Gathered A) (logout : Logout)
    → follow
        (accepts login)
        (some (home credentials))
        (session credentials login endpoints fetched logout).0
      ≡ some (home credentials)
unfolding session
session-follow false login endpoints fetched logout = gets-anonymous (accepts login) endpoints
session-follow true (result _) endpoints fetched logout = gets-inside true endpoints
session-follow true cancelled endpoints fetched logout = refl
session-follow true (exception text) endpoints fetched logout = refl

logged_out-result :
    {A : Type 0} (logout : Logout) (fetched : Gathered A) (a : A)
    → logged_out logout fetched ≡ result a
    → fetched ≡ result a
logged_out-result answered fetched a h = h
logged_out-result http_error fetched a h = h
logged_out-result (other_error text) fetched a h = absurd cc
logged_out-result interrupted fetched a h = absurd cc

session-result :
    {A : Type 0} (credentials : Bool) (login : Gathered (Unit {0})) (endpoints : Dict String String)
    (fetched : Gathered A) (logout : Logout) (a : A)
    → (session credentials login endpoints fetched logout).1 ≡ result a
    → fetched ≡ result a
unfolding session
session-result false login endpoints fetched logout a h = h
session-result true (result _) endpoints fetched logout a h = logged_out-result logout fetched a h
session-result true cancelled endpoints fetched logout a h = absurd cc
session-result true (exception text) endpoints fetched logout a h = absurd cc

fetch_end-result :
    {A : Type 0} (fetched : Option A) (a : A) → fetch_end fetched ≡ result a → fetched ≡ some a
fetch_end-result none a h = absurd cc
fetch_end-result (some b) a h = cc

-- The last value, and the last error, of a name among the gathered calls.
abbrev pub last_value {ℓ} : {A : Type ℓ} → String → List (String × Gathered A) → Option A → Option A
last_value name [] before = before
last_value name ((n, result a) ∷ rest) before =
    last_value name rest (if name == n then some a else before)
last_value name ((n, cancelled) ∷ rest) before = last_value name rest before
last_value name ((n, exception text) ∷ rest) before = last_value name rest before

abbrev pub last_error {ℓ} :
    {A : Type ℓ} → String → List (String × Gathered A) → Option String → Option String
last_error name [] before = before
last_error name ((n, result a) ∷ rest) before = last_error name rest before
last_error name ((n, cancelled) ∷ rest) before = last_error name rest before
last_error name ((n, exception text) ∷ rest) before =
    last_error name rest (if name == n then some text else before)

fetch_named-answers :
    {A : Type 0} (name : String) (calls : List (String × Gathered A)) (values : Dict String A)
    (errors : Dict String String) (payloads : Dict String A) (failures : Dict String String)
    → fetch_named calls (values, errors) ≡ some (payloads, failures)
    → (lookup name payloads ≡ last_value name calls (lookup name values))
      × (lookup name failures ≡ last_error name calls (lookup name errors))
unfolding fetch_named
fetch_named-answers {A = A} name [] values errors payloads failures h =
    let same : ◌≡◌ {A = Dict String A × Dict String String} (payloads, failures) (values, errors) =
      cc in
    (ap (λ p. lookup name p.0) same, ap (λ p. lookup name p.1) same)
fetch_named-answers name ((n, result a) ∷ rest) values errors payloads failures h =
    let more = fetch_named-answers name rest (insert n a values) errors payloads failures h in
    (more.0 ∙ ap (last_value name rest) (lookup-insert name n a values), more.1)
fetch_named-answers name ((n, cancelled) ∷ rest) values errors payloads failures h = absurd cc
fetch_named-answers name ((n, exception text) ∷ rest) values errors payloads failures h =
    let more = fetch_named-answers name rest values (insert n text errors) payloads failures h in
    (more.0, more.1 ∙ ap (last_error name rest) (lookup-insert name n text errors))

module _ (json : String → Parsed Value) (from_string : String → Parsed Element)
    (send : String → Gathered Response) where
  -- A collection of the i6000 client opens no session that it does not close, and requests nothing
  -- but in a session, unless it has no credentials: then it neither logs in nor out.
  pub i6000_fetch_payloads-closes :
      (username password : Option String) (login : Gathered (Unit {0})) (logout : Logout)
      (configured : Dict String String) (class : Option String)
      → (let stand = home (has_text username && has_text password) in
          let requests =
            (i6000_fetch_payloads json from_string send username password login logout configured
              class).0 in
          follow (accepts login) (some stand) requests ≡ some stand)
  unfolding i6000_fetch_payloads
  i6000_fetch_payloads-closes username password login logout configured class =
      let endpoints = i6000_endpoints_for_class (or_default_endpoints configured) class in
      session-follow (has_text username && has_text password) login endpoints
        (fetch_end (fetch_named (get_each json from_string send endpoints) ([], []))) logout

  -- If a collection of the i6000 client returns payloads and errors, they have under every name what
  -- the last endpoint of the name that answered gave, and the error of the last one that failed.
  pub i6000_fetch_payloads-answers :
      (username password : Option String) (login : Gathered (Unit {0})) (logout : Logout)
      (configured : Dict String String) (class : Option String) (payloads : Dict String Value)
      (errors : Dict String String) (name : String)
      → (i6000_fetch_payloads json from_string send username password login logout configured
          class).1
        ≡ result (payloads, errors)
      → (let calls =
            get_each json from_string send
              (i6000_endpoints_for_class (or_default_endpoints configured) class) in
          (lookup name payloads ≡ last_value name calls none)
          × (lookup name errors ≡ last_error name calls none))
  unfolding i6000_fetch_payloads lookup
  i6000_fetch_payloads-answers username password login logout configured class payloads errors name
        h =
      let endpoints = i6000_endpoints_for_class (or_default_endpoints configured) class in
      let calls = get_each json from_string send endpoints in
      fetch_named-answers name calls [] [] payloads errors (
        fetch_end-result (fetch_named calls ([], [])) (payloads, errors)
          (session-result (has_text username && has_text password) login endpoints
            (fetch_end (fetch_named calls ([], []))) logout (payloads, errors) h))
