-- ===== src/Dhttp/Request.antt =====
-- infra/dhttp/http_request.go, middlewares.go and http_response.go: a request, the chain of
-- middlewares around it, and what is read of the response. The client, `url.Parse`, `Params.Encode`
-- and gzip are arguments.
use Prim.Native.String.{◌++◌ as concat}
use dt_go.Base.{
  ℕ, Bool, true, false, not, ◌&&◌, ◌||◌, Option, none, some, List, [], ◌∷◌, ◌++◌, ◌==◌, ltb, leb,
  String, str_eq, if◌then◌else◌, ◌⊎◌, inl, inr,
}
use dt_go.Base.Bytes.{Bytes, eq_bytes, to_lower}

abbrev pub Error : Type 0
Error = String

-- A header by canonical key; of a key that stands twice the first value counts.
abbrev pub Header : Type 0
Header = List (String × Bytes)

unfoldable pub header_get : Header → String → Bytes
header_get [] key = []
header_get ((k, v) ∷ h) key = if str_eq k key then v else header_get h key

-- What `ioutil.ReadAll` reads of a body before its end or an error.
abbrev pub ReadResult : Type 0
ReadResult = Bytes × Option Error

-- `http.Response`. A length of -1, which stands for an unknown one, is none.
pub record StdResponse : Type 0 where
  pub std_status : String
  pub std_status_code : ℕ
  pub std_proto : String
  pub std_proto_major : ℕ
  pub std_proto_minor : ℕ
  pub std_header : Header
  pub std_content_length : Option ℕ
  pub std_uncompressed : Bool
  pub std_body : ReadResult

pub record Response : Type 0 where
  pub std_response : Option StdResponse
  pub error : Option Error
  pub http11 : Bool
  pub content_type : Bytes
  pub status : String
  pub status_code : ℕ
  pub proto : String
  pub proto_major : ℕ
  pub proto_minor : ℕ
  pub header : Header
  pub content_length : Option ℕ
  pub uncompressed : Bool

-- What goes out: the parts of `http.Request` that the package sets.
pub record Outgoing : Type 0 where
  pub out_method : String
  pub out_url : String
  pub out_header : Header
  pub out_body : Option Bytes

-- `ran` and `sent` record the middlewares that were entered and the requests that went out.
pub record HttpRequest : Type 0 where
  pub method : String
  pub raw_url : String
  pub params : List (String × String)
  pub request_header : Header
  pub request_body : Option Bytes
  pub singleflight_key : String
  pub stopped : Bool
  pub next_index : ℕ
  pub response : Response
  pub respone_body : Bytes
  pub ran : List ℕ
  pub sent : List Outgoing

abbrev pub empty_response : Response
empty_response = record {
  std_response = none;
  error = none;
  http11 = false;
  content_type = [];
  status = "";
  status_code = 0;
  proto = "";
  proto_major = 0;
  proto_minor = 0;
  header = [];
  content_length = some 0;
  uncompressed = false;
}

abbrev pub new_http_request : String → HttpRequest
new_http_request url = record {
  method = "";
  raw_url = url;
  params = [];
  request_header = [];
  request_body = none;
  singleflight_key = "";
  stopped = false;
  next_index = 0;
  response = empty_response;
  respone_body = [];
  ran = [];
  sent = [];
}

abbrev pub proto_at_least : Response → ℕ → ℕ → Bool
proto_at_least res major minor =
    ltb major res.proto_major || (res.proto_major == major && leb minor res.proto_minor)

abbrev pub set_method : HttpRequest → String → HttpRequest
set_method req m = record req { method = m }

abbrev pub fail_with : HttpRequest → Error → HttpRequest
fail_with req e = record req { response = record req.response { error = some e } }

-- `Stop`, with the error it is given or its own.
abbrev pub stop_error : Option Error → Error
stop_error none = "Middleware stop"
stop_error (some e) = e

unfoldable pub stop : HttpRequest → Option Error → HttpRequest
stop req e = record req {
  stopped = true;
  response = record req.response { error = some (stop_error e) };
}

-- What the code calls outside of the package.
pub record Net : Type 0 where
  pub client : Outgoing → Error ⊎ StdResponse
  pub parse_url : String → Option Error
  pub encode : List (String × String) → String
  pub gunzip : ReadResult → Error ⊎ ReadResult

-- `strings.EqualFold(v, "gzip")`
abbrev pub is_gzip : Bytes → Bool
is_gzip v = eq_bytes (to_lower v) (b'g' ∷ b'z' ∷ b'i' ∷ b'p' ∷ [])

abbrev pub has_length : Option ℕ → Bool
has_length none = true
has_length (some n) = not (n == 0)

module _ (net : Net) where
  abbrev pub url : HttpRequest → String
  url req =
      let p = net.encode req.params in
      if str_eq p "" then req.raw_url else concat req.raw_url (concat "?" p)

  abbrev pub set_read : HttpRequest → ReadResult → HttpRequest
  set_read req (bytes, e) = record req {
    respone_body = bytes;
    response = record req.response { error = e };
  }

  abbrev pub read_gzip : HttpRequest → Error ⊎ ReadResult → HttpRequest
  read_gzip req (inl e) = fail_with req e
  read_gzip req (inr r) = set_read req r

  unfoldable pub read_body : HttpRequest → StdResponse → HttpRequest
  unfolding header_get
  read_body req std =
      if is_gzip (header_get req.response.header "Content-Encoding")
        && has_length req.response.content_length
      then read_gzip req (net.gunzip std.std_body)
      else set_read req std.std_body

  abbrev pub filled : Response → StdResponse → Response
  filled res std = record {
    std_response = res.std_response;
    error = res.error;
    http11 = (std.std_proto_major == 1) && (std.std_proto_minor == 1);
    content_type = header_get std.std_header "Content-Type";
    status = std.std_status;
    status_code = std.std_status_code;
    proto = std.std_proto;
    proto_major = std.std_proto_major;
    proto_minor = std.std_proto_minor;
    header = std.std_header;
    content_length = std.std_content_length;
    uncompressed = std.std_uncompressed;
  }

  unfoldable pub filling_respone : HttpRequest → StdResponse → HttpRequest
  filling_respone req std = elim req.response.error [
    | some e ↦ req
    | none ↦ record req { response = filled req.response std }
  ]

  -- `prepare`: the error it returns.
  abbrev pub prepare : HttpRequest → Option Error
  prepare req = elim req.response.error [ some e ↦ some e | none ↦ net.parse_url (url req) ]

  abbrev pub answered : HttpRequest → Error ⊎ StdResponse → HttpRequest
  answered req (inl e) = record req {
    response = record req.response { std_response = none; error = some e };
  }
  answered req (inr std) =
      filling_respone
        (read_body (record req { response = record req.response { std_response = some std } }) std)
        std

  abbrev pub outgoing : HttpRequest → Outgoing
  outgoing req = record {
    out_method = req.method;
    out_url = url req;
    out_header = req.request_header;
    out_body = req.request_body;
  }

  abbrev pub send : HttpRequest → HttpRequest
  send req =
      answered (record req { sent = req.sent ++ (outgoing req ∷ []) }) (net.client (outgoing req))

  -- `do`
  unfoldable pub do_request : HttpRequest → HttpRequest
  unfolding read_body filling_respone
  do_request req = elim (prepare req) [ some e ↦ fail_with req e | none ↦ send req ]
