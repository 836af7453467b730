-- ===== src/Dhttp/Chain/Tests.antt =====
-- The theorems about the chain of infra/dhttp/http_request.go at two middlewares.
use dt_go.Base.{none, some, List, [], ◌∷◌, refl, inl, arith}
use dt_go.Dhttp.Request.{HttpRequest, Net, new_http_request, stop}
use dt_go.Dhttp.Chain.{Handler, finish, look, go_next, go_stop_with, run_handler, next}
use dt_go.Dhttp.Chain.Order.{Returns, next-Returns}
use dt_go.Dhttp.Chain.Stopped.{Quiet, run_handler-Quiet}
use dt_go.Dhttp.Chain.Once.{Sends, next-Sends}

abbrev net : Net
net = record {
  client = λ out. inl "no route";
  parse_url = λ url. none;
  encode = λ params. "";
  gunzip = λ read. inl "no gzip";
}

abbrev guard : Handler
guard = look (λ req. go_next finish)

abbrev middlewares : List Handler
middlewares = guard ∷ go_stop_with "denied" (go_next finish) ∷ []

abbrev request : HttpRequest
request = new_http_request "http://localhost/"

next-Returns_example : Returns net middlewares request (next net middlewares 2 request)
next-Returns_example =
    next-Returns net middlewares 2 request (record { index_le = omega arith; in_order = refl })
      (omega arith)

next-Sends_example : Sends 1 request (next net middlewares 2 request)
next-Sends_example = next-Sends net middlewares 2 request ((λ req. tt), (tt, tt))

run_handler-Quiet_example : Quiet (stop request none) (stop request (some "denied"))
unfolding run_handler stop next
run_handler-Quiet_example =
    run_handler-Quiet net middlewares refl 2 (go_stop_with "denied" (go_next finish))
      (stop request none) (stop request (some "denied")) refl refl
