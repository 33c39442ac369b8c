-- ===== src/Sqs/Xml.antt =====
-- crates/services/sqs/src/provider.rs, lines 38 to 153: responses and the escaping of text in them.
pub mod Escape
use Prim.Native.Char.{Char, code}
use Prim.Native.String.{[], ◌∷◌}
use mathlib.Core.List.{[] as nil}
use openstack.Prelude.{ℕ, String, ◌++◌, Bool, ◌||◌, eqb, if◌then◌else◌, List, ◌∷◌ as cons}
use openstack.Prelude.Format.{hex_pad}
use openstack.Framework.Json.{Json, str, object}
use openstack.Framework.Traits.{DispatchResponse, ResponseBody, xml, json}
use openstack.Sqs.Ids.{fetch_add}

-- `xml_wrap`.
unfoldable pub xml_wrap : String → String → String → DispatchResponse
xml_wrap action request_id inner = record {
  status_code = 200;
  body = xml (
      "<?xml version=\"1.0\" encoding=\"UTF-8\"?>" ++ "<" ++ action
      ++ "Response xmlns=\"http://queue.amazonaws.com/doc/2012-11-05/\">" ++ "<" ++ action
      ++ "Result>" ++ inner ++ "</" ++ action ++ "Result>" ++ "<ResponseMetadata><RequestId>"
      ++ request_id ++ "</RequestId></ResponseMetadata>" ++ "</" ++ action ++ "Response>");
  content_type = "text/xml";
  headers = nil;
}

-- `xml_no_result`.
unfoldable pub xml_no_result : String → String → DispatchResponse
xml_no_result action request_id = record {
  status_code = 200;
  body = xml (
      "<?xml version=\"1.0\" encoding=\"UTF-8\"?>" ++ "<" ++ action
      ++ "Response xmlns=\"http://queue.amazonaws.com/doc/2012-11-05/\">"
      ++ "<ResponseMetadata><RequestId>" ++ request_id ++ "</RequestId></ResponseMetadata>" ++ "</"
      ++ action ++ "Response>");
  content_type = "text/xml";
  headers = nil;
}

-- `sqs_error`.
unfoldable pub sqs_error : String → String → DispatchResponse
sqs_error error_code message = record {
  status_code = 400;
  body = xml (
      "<?xml version=\"1.0\" encoding=\"UTF-8\"?>"
      ++ "<ErrorResponse xmlns=\"http://queue.amazonaws.com/doc/2012-11-05/\">"
      ++ "<Error><Type>Sender</Type><Code>" ++ error_code ++ "</Code><Message>" ++ message
      ++ "</Message></Error>" ++ "</ErrorResponse>");
  content_type = "text/xml";
  headers = nil;
}

-- `sqs_json_response`.
unfoldable pub sqs_json_response : Json → DispatchResponse
sqs_json_response value = record {
  status_code = 200;
  body = json value;
  content_type = "application/x-amz-json-1.0";
  headers = nil;
}

-- `sqs_json_error`.
unfoldable pub sqs_json_error : String → String → ℕ → DispatchResponse
sqs_json_error error_code message status_code = record {
  status_code = status_code;
  body = json (object (cons ("__type", str error_code) (cons ("message", str message) nil)));
  content_type = "application/x-amz-json-1.0";
  headers = nil;
}

-- `new_request_id`: the id, and the counter behind it.
unfoldable pub new_request_id : ℕ → String × ℕ
unfolding hex_pad fetch_add
new_request_id counter = ("r-" ++ hex_pad 16 counter, fetch_add counter)

abbrev pub is_special : Char → Bool
is_special c = eqb (code c) b'&' || eqb (code c) b'<' || eqb (code c) b'>' || eqb (code c) b'"'

unfoldable pub any_special : String → Bool
any_special [] = Bool.false
any_special (c ∷ s) = is_special c || any_special s

abbrev pub escape_char : Char → String → String
escape_char c rest =
    if eqb (code c) b'&'
    then "&amp;" ++ rest
    else if eqb (code c) b'<'
    then "&lt;" ++ rest
    else if eqb (code c) b'>'
    then "&gt;" ++ rest
    else if eqb (code c) b'"'
    then "&quot;" ++ rest
    else c ∷ rest

unfoldable pub escape_chars : String → String
escape_chars [] = []
escape_chars (c ∷ s) = escape_char c (escape_chars s)

-- `escape_xml`, which hands a text with nothing to escape back.
unfoldable pub escape_xml : String → String
unfolding any_special escape_chars
escape_xml s = if any_special s then escape_chars s else s

-- `push_xml_escaped`.
unfoldable pub push_xml_escaped : String → String → String
unfolding any_special escape_chars
push_xml_escaped dst s = if any_special s then dst ++ escape_chars s else dst ++ s
