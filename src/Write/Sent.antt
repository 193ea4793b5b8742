-- ===== src/Write/Sent.antt =====
-- The validated data of a request: a field is none where it was not sent.
use otwarte_dane_transportow.Common.{
  ℕ, Bool, true, false, not, ◌&&◌, Option, none, some, List, [], ◌∷◌, if◌then◌else◌, Text,
  non_empty,
}
use otwarte_dane_transportow.Content.Checks.{DataType}
use otwarte_dane_transportow.Review.Submissions.{
  EntryField, url, file, is_original, hide_original, auth_type, auth_value, license,
  download_time_1, download_time_2,
}
use otwarte_dane_transportow.Review.Static.{ContentKey, static_entry, dotted}

-- An uploaded file, with a name that the storage leaves as it is.
pub record Upload : Type 0 where
  pub name : Text
  pub content : Text

pub record EntryData : Type 0 where
  pub url : Option Text
  pub file : Option (Option Upload)
  pub is_original : Option Bool
  pub hide_original : Option Bool
  pub auth_type : Option Text
  pub auth_value : Option (Option Text)
  pub license : Option Text
  pub download_time_1 : Option (Option ℕ)
  pub download_time_2 : Option (Option ℕ)

pub record Attrs : Type 0 where
  pub name : Option Text
  pub transport_organization : Option ℕ
  pub data_type : Option DataType
  pub note : Option Text
  pub static_entry : Option EntryData

abbrev pub is_sent {ℓ} : {A : Type ℓ} → Option A → Bool
is_sent none = false
is_sent (some _) = true

abbrev pub key_if : Bool → EntryField → List EntryField → List EntryField
key_if b k ks = if b then k ∷ ks else ks

-- `static_entry_data.keys()`
unfoldable pub keys_of : EntryData → List EntryField
keys_of d = key_if (is_sent d.url) url (
    key_if (is_sent d.file) file (
      key_if (is_sent d.is_original) is_original (
        key_if (is_sent d.hide_original) hide_original (
          key_if (is_sent d.auth_type) auth_type (
            key_if (is_sent d.auth_value) auth_value (
              key_if (is_sent d.license) license (
                key_if (is_sent d.download_time_1) download_time_1
                  (key_if (is_sent d.download_time_2) download_time_2 []))))))))

-- The truth value of the dict.
unfoldable pub has_data : EntryData → Bool
unfolding keys_of
has_data d = elim (keys_of d) [ [] ↦ false | k ∷ ks ↦ true ]

-- Under `restricted_static_edit` the source fields are read-only, so they are not validated data.
unfoldable pub without_source : EntryData → EntryData
without_source d = record d {
  url = none;
  file = none;
  is_original = none;
  hide_original = none;
  auth_type = none;
  auth_value = none;
}

abbrev pub source_free : Option EntryData → Option EntryData
source_free none = none
source_free (some d) = some (without_source d)

unfoldable pub readable : Bool → Attrs → Attrs
readable restricted a =
    if restricted then record a { static_entry = source_free a.static_entry } else a

abbrev pub nested_keys : List ContentKey → Option (List EntryField)
nested_keys [] = none
nested_keys (static_entry fields ∷ rest) = some fields
nested_keys (_ ∷ rest) = nested_keys rest

abbrev pub dotted_keys : List ContentKey → List EntryField
dotted_keys [] = []
dotted_keys (dotted field ∷ rest) = field ∷ dotted_keys rest
dotted_keys (_ ∷ rest) = dotted_keys rest

-- `_static_entry_keys_in_request`
unfoldable pub static_entry_keys_in_request : List ContentKey → List EntryField
static_entry_keys_in_request keys = elim (nested_keys keys) [
  | some fields ↦ fields
  | none ↦ dotted_keys keys
]

-- A sent value that is `''` or `None`.
abbrev pub clears_url : Option Text → Bool
clears_url none = false
clears_url (some s) = not (non_empty s)

abbrev pub sets_url : Option Text → Bool
sets_url none = false
sets_url (some s) = non_empty s

abbrev pub clears_file : Option (Option Upload) → Bool
clears_file (some none) = true
clears_file _ = false

abbrev pub sets_file : Option (Option Upload) → Bool
sets_file (some (some _)) = true
sets_file _ = false

-- `_prune_noop_static_entry_source_updates`
unfoldable pub prune_noop_static_entry_source_updates : Bool → EntryData → EntryData
prune_noop_static_entry_source_updates partial d =
    if partial
    then record d {
      url = if clears_url d.url && not (sets_file d.file) then none else d.url;
      file = if clears_file d.file && not (sets_url d.url) then none else d.file;
    }
    else d
