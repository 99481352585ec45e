-- ===== src/Http.antt =====
-- Requests and responses of Go's net/http, as far as the handlers of the program use them.
use virtual_cloud_help_servi.Prelude.{ℕ, List, Bool}
use virtual_cloud_help_servi.Prelude.Text.{Text, bytes, text_eq}

pub record HttpRequest : Type 0 where
  pub method : Text
  pub path : Text
  pub authorization : Text  -- the header, or the empty text
  pub content_type : Text
  pub body : Text

pub record HttpResponse : Type 0 where
  pub status : ℕ
  pub headers : List (Text × Text)
  pub body : Text

abbrev pub header : Text → Text → Text × Text
header name value = (name, value)

-- request.Method == http.MethodGet and so on
abbrev pub is_method : Text → HttpRequest → Bool
is_method name request = text_eq request.method name

abbrev pub method_get : Text
method_get = bytes "GET"

abbrev pub method_head : Text
method_head = bytes "HEAD"

abbrev pub method_post : Text
method_post = bytes "POST"
