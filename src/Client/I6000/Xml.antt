-- ===== src/Client/I6000/Xml.antt =====
-- apps/clients/i6000_rest_client.py, `_xml_to_obj`: an XML element as a dict of its one key.
pub mod Grouped
use integrated_backup_monito.Prelude.{String, Option, none, some, List, [], ◌∷◌, ◌++◌}
use integrated_backup_monito.Prelude.Text.{strip, split}
use integrated_backup_monito.Value.{
  Value, obj, arr, str, Fields, field, end, Items, cons, nil, find, put,
}

-- `xml.etree.ElementTree.Element`: the tag, the text before the first child, and the children.
mutual
  pub data Element : Type 0 where
    element : String → Option String → Elements → Element

  pub data Elements : Type 0 where
    child : Element → Elements → Elements
    childless : Elements

abbrev last_of : String → List String → String
last_of s [] = s
last_of s (t ∷ ts) = last_of t ts

-- `element.tag.rsplit("}", 1)[-1]`; 125 is the code of the bracket.
unfoldable pub local_name : String → String
unfolding split
local_name tag = last_of tag (split 125 tag)

unfoldable pub key_of : Element → String
unfolding local_name
key_of (element tag text children) = local_name tag

abbrev pub text_or_empty : Option String → String
text_or_empty none = ""
text_or_empty (some s) = s

-- `items.append(v)`
abbrev pub append_item : Items → Value → Items
append_item nil v = cons v nil
append_item (cons w items) v = cons w (append_item items v)

-- One child in the loop: the second value of a key makes a list of the first one, unless it is one.
abbrev pub pushed : Option Value → Value → Value
pushed (some (arr items)) v = arr (append_item items v)
pushed (some w) v = arr (cons w (cons v nil))
pushed none v = v

unfoldable pub add_child : String → Value → Fields → Fields
unfolding find put
add_child key v data_ = put key (pushed (find key data_) v) data_

unfoldable mutual
  unfolding add_child strip key_of

  -- The value of the one key.
  pub xml_value : Element → Value
  xml_value (element tag text childless) = str (strip (text_or_empty text))
  xml_value (element tag text (child e es)) =
      obj (add_children es (add_child (key_of e) (xml_value e) end))

  pub add_children : Elements → Fields → Fields
  add_children childless data_ = data_
  add_children (child e es) data_ = add_children es (add_child (key_of e) (xml_value e) data_)

unfoldable pub xml_to_obj : Element → Fields
unfolding xml_value key_of
xml_to_obj e = field (key_of e) (xml_value e) end
