-- ===== src/Requests/Tests.antt =====
-- The theorem about infra/requests at concrete input, and a reply without an error.
use dt_go.Base.{false, none, some, [], ◌≡◌, refl, String}
use dt_go.Base.Int.{pos}
use dt_go.Base.Bytes.{Bytes}
use dt_go.Language.{Weights}
use dt_go.Requests.Response.{Context, Json, JsonResponse, dispatch, json}
use dt_go.Requests.Request.{Answers}

abbrev js : Json
js = record {
  of_object = λ n. "{}";
  of_error = λ e. "error";
  javascript = "text/javascript";
  xml_type = "text/xml";
}

abbrev text : Bytes → String
text s = "zh-CN"

abbrev as_it_is : Weights → Weights
as_it_is m = m

abbrev bad_query : Answers
bad_query = record {
  read_all = none;
  unmarshal = none;
  read_query_err = some "limit: not a number";
  read_form_err = none;
  validate = none;
}

abbrev fresh : Context
fresh = record {
  status = pos 200;
  code_value = none;
  response_value = none;
  body = none;
  stopped = false;
}

abbrev created : JsonResponse
created = record { error = none; code = pos 201; content_type = ""; object = 5 }

replied :
    dispatch js text [] as_it_is [] [] created fresh
    ≡ some (record {
      status = pos 201;
      code_value = some (pos 201);
      response_value = some "{}";
      body = some (json 5);
      stopped = false;
    })
unfolding dispatch
replied = refl
