-- ===== src/Client/I6000/Tests.antt =====
-- The laws of the i6000 client, applied to a library of two endpoints and to a list of drives.
use integrated_backup_monito.Prelude.{
  String, ◌≡◌, refl, true, ◌&&◌, none, some, [], ◌∷◌, ◌==◌, string_eq, if◌then◌else◌,
}
use integrated_backup_monito.Prelude.Dict.{Dict, lookup}
use integrated_backup_monito.Value.{Value, obj, end, find, get, dict_or_empty}
use integrated_backup_monito.Collector.Collect.{Gathered, result, exception}
use integrated_backup_monito.Client.I6000.Xml.{
  Element, element, child, childless, local_name, xml_to_obj,
}
use integrated_backup_monito.Client.I6000.Xml.Grouped.{grouped, values_under, xml_to_obj-groups}
use integrated_backup_monito.Client.I6000.{
  Response, Parsed, value, raised, http_error, has_text, get_each, i6000_endpoints_for_class,
  or_default_endpoints, i6000_fetch_payloads,
}
use integrated_backup_monito.Client.I6000.Sessions.{
  follow, home, last_value, last_error, i6000_fetch_payloads-closes, i6000_fetch_payloads-answers,
}

abbrev leaf : String → String → Element
leaf tag text = element tag (some text) childless

-- <drives><name>first</name><drive>A</drive><drive>B</drive></drives>
xml_to_obj-groups_example :
    find "drive" (
      dict_or_empty (
        get (local_name "{urn:aml}drives") (
          xml_to_obj (
            element "{urn:aml}drives" none (
              child
                (leaf "name" "first")
                (child (leaf "drive" "A") (child (leaf "drive" "B") childless)))))))
    ≡ grouped (
        values_under "drive" (
          child
            (leaf "name" "first")
            (child (leaf "drive" "A") (child (leaf "drive" "B") childless))))
xml_to_obj-groups_example =
    xml_to_obj-groups "{urn:aml}drives" none (leaf "name" "first")
      (child (leaf "drive" "A") (child (leaf "drive" "B") childless)) "drive"

abbrev no_json : String → Parsed Value
no_json text = value (obj end)

abbrev no_xml : String → Parsed Element
no_xml text = raised "ParseError"

abbrev answers : String → Gathered Response
answers endpoint =
    if endpoint == "aml/drives"
    then result (record { content_type = "application/json"; text = "{}" })
    else exception "503"

abbrev got : Dict String Value
got = ("drives", obj end) ∷ []

abbrev lost : Dict String String
lost = ("status", "503") ∷ []

abbrev two : Dict String String
two = ("drives", "aml/drives") ∷ ("status", "aml/physicalLibrary/status") ∷ []

i6000_fetch_payloads-closes_example :
    (let stand = home (has_text (some "monitor") && has_text (some "secret")) in
      let requests =
        (i6000_fetch_payloads no_json no_xml answers
          (some "monitor")
          (some "secret")
          (result tt)
          http_error
          two
          (some "fast")).0 in
      follow true (some stand) requests ≡ some stand)
i6000_fetch_payloads-closes_example =
    i6000_fetch_payloads-closes no_json no_xml answers (some "monitor") (some "secret") (result tt)
      http_error two (some "fast")

i6000_fetch_payloads-answers_example :
    (let calls =
        get_each no_json no_xml answers
          (i6000_endpoints_for_class (or_default_endpoints two) (some "fast")) in
      (lookup "drives" got ≡ last_value "drives" calls none)
      × (lookup "drives" lost ≡ last_error "drives" calls none))
unfolding i6000_fetch_payloads
i6000_fetch_payloads-answers_example =
    i6000_fetch_payloads-answers no_json no_xml answers (some "monitor") (some "secret") (result tt)
      http_error two (some "fast") got lost "drives" refl
