-- ===== src/Dhttp/Results/Tests.antt =====
-- The theorems about the bodies of infra/dhttp/http_request.go at a concrete reply.
use dt_go.Base.{false, Option, none, some, [], ◌∷◌, ◌≡◌, refl, inr}
use dt_go.Base.Bytes.{Bytes}
use dt_go.Dhttp.Request.{StdResponse, HttpRequest, Net, new_http_request, do_request, outgoing}
use dt_go.Dhttp.Chain.{go_next, finish, next}
use dt_go.Dhttp.Results.{leads, joins, flight_data, to_string, next_all}
use dt_go.Dhttp.Results.Shared.{seen_of, to_string-joins}
use dt_go.Dhttp.Results.Bodies.{of_reply, to_string-of_reply}

abbrev zipped : Bytes
zipped = b'\x1f' ∷ b'\x8b' ∷ b'\x08' ∷ []

abbrev reply : StdResponse
reply = record {
  std_status = "200 OK";
  std_status_code = 200;
  std_proto = "HTTP/1.1";
  std_proto_major = 1;
  std_proto_minor = 1;
  std_header = ("Content-Encoding", b'g' ∷ b'z' ∷ b'i' ∷ b'p' ∷ []) ∷ [];
  std_content_length = some 3;
  std_uncompressed = false;
  std_body = (zipped, none);
}

abbrev net : Net
net = record {
  client = λ out. inr reply;
  parse_url = λ url. none;
  encode = λ params. "";
  gunzip = λ read. inr (b'h' ∷ b'i' ∷ [], none);
}

abbrev request : HttpRequest
request = new_http_request "http://localhost/"

to_string-of_reply_example :
    seen_of (to_string net [] request (leads false))
    ≡ some (of_reply (net.client (outgoing net request)))
to_string-of_reply_example = to_string-of_reply net request (leads false) refl refl refl

abbrev keyed : HttpRequest
keyed = record request { singleflight_key = "key" }

to_string-joins_example :
    seen_of (to_string net [] keyed (leads false))
    ≡ seen_of (to_string net [] keyed (joins (flight_data (do_request net keyed))))
unfolding next
to_string-joins_example =
    to_string-joins net [] keyed keyed (do_request net keyed) false refl refl refl

-- A second round on the same request does unpack the body: its headers are those of the first reply.
abbrev twice : Option HttpRequest
twice = next_all net ((go_next (go_next finish)) ∷ []) request

unpacked : (do_request net (do_request net request)).respone_body ≡ b'h' ∷ b'i' ∷ []
unfolding do_request
unpacked = refl

packed : (do_request net request).respone_body ≡ zipped
unfolding do_request
packed = refl
