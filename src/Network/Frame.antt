-- ===== src/Network/Frame.antt =====
-- `parse_client_frame` of crates/gb-network/src/server.rs. What `serde_json` makes of a text is a
-- parameter; a frame that is neither text nor a close carries nothing that is looked at.
use pockiva.Prelude.{
  ℕ, Bool, false, not, ◌&&◌, Option, none, some, ◌∷◌, [], length, ltb, if◌then◌else◌,
}
use pockiva.Network.{
  Text, same_text, ClientMessage, RejectionReason, unsupported_version, malformed_message,
}

pub data Frame : Type 0 where
  text : Text → Frame
  close other : Frame

-- `from_str` at the type of a message and at `Value`, and a field of a value that is a string.
pub record Json (J : Type 0) : Type 0 where
  pub message_of : Text → Option ClientMessage
  pub value_of : Text → Option J
  pub str_field : J → Text → Option Text

-- `MAX_TEXT_BYTES`
abbrev pub max_text_bytes : ℕ
max_text_bytes = 4096

-- "type", "hello", "version" and "v1" in bytes
abbrev pub type_key : Text
type_key = 116 ∷ 121 ∷ 112 ∷ 101 ∷ []

abbrev pub hello_text : Text
hello_text = 104 ∷ 101 ∷ 108 ∷ 108 ∷ 111 ∷ []

abbrev pub version_key : Text
version_key = 118 ∷ 101 ∷ 114 ∷ 115 ∷ 105 ∷ 111 ∷ 110 ∷ []

abbrev pub v1_text : Text
v1_text = 118 ∷ 49 ∷ []

pub data Parsed : Type 0 where
  parsed : ClientMessage → Parsed
  unparsed : RejectionReason → Parsed

unfoldable pub is_text : Option Text → Text → Bool
unfolding same_text
is_text none expected = false
is_text (some found) expected = same_text found expected

-- `is_some_and(|version| version != "v1")`
unfoldable pub is_other_version : Option Text → Bool
unfolding same_text
is_other_version none = false
is_other_version (some version) = not (same_text version v1_text)

unfoldable pub parse_client_frame : {J : Type 0} → Json J → Frame → Parsed
unfolding is_text is_other_version
parse_client_frame json (text t) =
    if ltb max_text_bytes (length t) then unparsed malformed_message else elim (json.message_of t) [
      | some message ↦ parsed message
      | none ↦ elim (json.value_of t) [
        | none ↦ unparsed malformed_message
        | some value ↦
            if is_text (json.str_field value type_key) hello_text
              && is_other_version (json.str_field value version_key)
            then unparsed unsupported_version
            else unparsed malformed_message
      ]
    ]
parse_client_frame json close = unparsed malformed_message
parse_client_frame json other = unparsed malformed_message
