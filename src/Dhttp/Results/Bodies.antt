-- ===== src/Dhttp/Results/Bodies.antt =====
-- infra/dhttp/http_request.go: what a request that has not been run before reads of the reply.
use dt_go.Base.{
  Bool, true, false, none, some, Bool-cases, [], str_eq, ◌&&◌, ◌==◌, ◌≡◌, refl, ap, ◌∙◌,
  if◌then◌else◌, inl, inr, ◌⊎◌,
}
use dt_go.Base.Bytes.{Bytes}
use dt_go.Dhttp.Request.{
  Error, Response, StdResponse, HttpRequest, Net, ReadResult, empty_response, header_get, url,
  outgoing, do_request, answered, send, set_read, read_body, filling_respone,
}
use dt_go.Dhttp.Chain.{next}
use dt_go.Dhttp.Results.{
  Flight, has_error, parse_bool, or_false, string_of, bool_of, after_next, to_string, to_bool,
  singleflight_do,
}
use dt_go.Dhttp.Results.Shared.{seen, seen_of}

-- The response with the fields of this reply.
abbrev pub fields_of_reply : StdResponse → Response
fields_of_reply std = record {
  std_response = some std;
  error = none;
  http11 = (std.std_proto_major == 1) && (std.std_proto_minor == 1);
  content_type = header_get std.std_header "Content-Type";
  status = std.std_status;
  status_code = std.std_status_code;
  proto = std.std_proto;
  proto_major = std.std_proto_major;
  proto_minor = std.std_proto_minor;
  header = std.std_header;
  content_length = std.std_content_length;
  uncompressed = std.std_uncompressed;
}

-- The text and the response that a reply should give: the body as it was received, or the error.
abbrev pub of_read : StdResponse → ReadResult → Bytes × Response
of_read std (bytes, none) = (bytes, fields_of_reply std)
of_read std (bytes, some e) =
    ([], record empty_response { std_response = some std; error = some e })

abbrev pub of_reply : Error ⊎ StdResponse → Bytes × Response
of_reply (inl e) = ([], record empty_response { error = some e })
of_reply (inr std) = of_read std std.std_body

abbrev pub bool_of_reply : Bytes × Response → Bool × Response
bool_of_reply (body, res) = (if has_error res then false else or_false (parse_bool body), res)

module _ (net : Net) where
  after_next-read :
      (q : HttpRequest) (std : StdResponse) (o : ReadResult)
      → seen (
          string_of (
            after_next (
              filling_respone net
                (set_read net
                  (record q { response = record empty_response { std_response = some std } })
                  o)
                std)))
        ≡ of_read std o
  unfolding filling_respone
  after_next-read q std (bytes, none) = refl
  after_next-read q std (bytes, some e) = refl

  after_next-answered :
      (q : HttpRequest) (reply : Error ⊎ StdResponse)
      → q.response ≡ empty_response
      → seen (string_of (after_next (answered net q reply))) ≡ of_reply reply
  unfolding read_body filling_respone
  after_next-answered q (inl e) is_new = rw is_new refl
  after_next-answered q (inr std) is_new = rw is_new (after_next-read q std std.std_body)

  do_request-sends :
      (req : HttpRequest)
      → req.response ≡ empty_response
      → net.parse_url (url net req) ≡ none
      → do_request net req ≡ send net req
  unfolding do_request
  do_request-sends req is_new url_parses = rw (ap (λ res. res.error) is_new, url_parses) refl

  -- For a request without singleflight key that has not been run, whose URL parses, and with no
  -- middleware installed: `ToString` gives the body exactly as it was received, whatever the headers
  -- of the reply say of its encoding, and the fields of the reply; or the error of the client or of
  -- the reading, and no text.
  pub to_string-of_reply :
      (req : HttpRequest) (flight : Flight)
      → req.response ≡ empty_response
      → str_eq req.singleflight_key "" ≡ true
      → net.parse_url (url net req) ≡ none
      → seen_of (to_string net [] req flight) ≡ some (of_reply (net.client (outgoing net req)))
  unfolding singleflight_do next
  to_string-of_reply req flight is_new no_key url_parses =
      rw (no_key, do_request-sends req is_new url_parses)
        (ap some (after_next-answered _ (net.client (outgoing net req)) is_new))

  bool_of_seen : (p : Bytes × HttpRequest) → seen (bool_of p) ≡ bool_of_reply (seen (string_of p))
  bool_of_seen (body, r) = elim (Bool-cases (has_error r.response)) [
    | inl e ↦ rw e refl
    | inr e ↦ rw e refl
  ]

  bool_of-answered :
      (q : HttpRequest) (reply : Error ⊎ StdResponse)
      → q.response ≡ empty_response
      → seen (bool_of (after_next (answered net q reply))) ≡ bool_of_reply (of_reply reply)
  bool_of-answered q reply is_new =
      bool_of_seen (after_next (answered net q reply))
      ∙ ap bool_of_reply (after_next-answered q reply is_new)

  -- Under the same conditions `ToBool` gives the Boolean that the body spells; where the body was read in
  -- full and spells none, it gives false, and the response of the reply, which has no error.
  pub to_bool-of_reply :
      (req : HttpRequest) (flight : Flight)
      → req.response ≡ empty_response
      → str_eq req.singleflight_key "" ≡ true
      → net.parse_url (url net req) ≡ none
      → seen_of (to_bool net [] req flight)
        ≡ some (bool_of_reply (of_reply (net.client (outgoing net req))))
  unfolding singleflight_do next
  to_bool-of_reply req flight is_new no_key url_parses =
      rw (no_key, do_request-sends req is_new url_parses)
        (ap some (bool_of-answered _ (net.client (outgoing net req)) is_new))
