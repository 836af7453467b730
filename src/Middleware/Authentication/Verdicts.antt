-- ===== src/Middleware/Authentication/Verdicts.antt =====
-- middleware/oauth2.go: which requests pass, and what becomes of the others.
use dt_go.Base.{
  ℕ, ◌+◌, ◌*◌, ◌≤◌, ◌<◌, Bool, true, false, Option, none, some, List, [], ◌∷◌, ◌++◌, ◌==◌, ==_iff,
  String, ◌≡◌, refl, ap, ◌∙◌, ◌⊎◌, inl, inr, arith, Bool-cases, Option-cases, In, In-append_left,
  In-append_right,
}
use dt_go.Base.Int.{ℤ, pos}
use dt_go.Base.Bytes.{Bytes}
use dt_go.Errors.{Registry, new_error}
use dt_go.Errors.StatusCodes.{status_code-of_nine}
use dt_go.Language.{Weights, TokenResult, no_token, token, parse_bearer_token, parse_x_language}
use dt_go.Middleware.Authentication.{
  Extra, extra_string, Introspection, Context, unauthorized_err, internal_err, error_response,
  add_extra, error_of, admit, add_bus, add_string, with_token, authenticate,
}

abbrev pub SameReply : Context → Context → Type 0
SameReply ctx r = (r.reply_status ≡ ctx.reply_status) × (r.stopped ≡ ctx.stopped)

add_extra-SameReply :
    (result : Introspection) (es : Option Extra) (ctx : Context)
    → SameReply ctx (add_extra result es ctx)
add_extra-SameReply result none ctx = (refl, refl)
add_extra-SameReply result (some es) ctx = elim (Option-cases (extra_string es "login_ip")) [
  | inl e ↦ (rw e refl, rw e refl)
  | inr (ip, e) ↦ (rw e refl, rw e refl)
]

-- What is on the bus stays there.
abbrev More : List (String × Bytes) → List (String × Bytes) → Type 0
More b d = (k : String) (v : Bytes) → In (k, v) b → In (k, v) d

module _ (b : List (String × Bytes)) where
  snoc-More : (d : List (String × Bytes)) (e : String × Bytes) → More b d → More b (d ++ (e ∷ []))
  snoc-More d e h j w i = In-append_left (j, w) d (e ∷ []) (h j w i)

  add_string-More :
      (k : String) (o : Option Bytes) (d : Context) → More b d.bus → More b (add_string k o d).bus
  add_string-More k none d h = h
  add_string-More k (some v) d h = snoc-More d.bus (k, v) h

  add_extra-More :
      (result : Introspection) (es : Option Extra) (d : Context)
      → More b d.bus
      → More b (add_extra result es d).bus
  add_extra-More result none d h = snoc-More d.bus _ h
  add_extra-More result (some es) d h = snoc-More _ _ (
      snoc-More _ _
        (snoc-More _ _ (snoc-More _ _ (add_string-More "ip" (extra_string es "login_ip") d h))))

module _ (text : Bytes → String) (registry : Registry) (order : Weights → Weights) (env : Bytes)
    (introspect : Bytes → Introspection × ℕ) where
  -- The request was stopped with this status, and its bus is as it was.
  pub record Rejected (status : ℕ) (ctx r : Context) : Type 0 where
    pub status_is : r.reply_status ≡ some (pos status)
    pub stops : r.stopped ≡ true
    pub bus_same : r.bus ≡ ctx.bus
    pub passed_same : r.passed ≡ ctx.passed

  -- The token is active and the endpoint has answered 200.
  pub record Admitted (authorization : Bytes) (ctx r : Context) : Type 0 where
    pub access_token : Bytes
    pub token_is : parse_bearer_token authorization ≡ token access_token
    pub is_active : (introspect access_token).0.active ≡ true
    pub is_ok : (introspect access_token).1 ≡ 200
    pub passes : r.passed ≡ true
    pub reply_same : SameReply ctx r
    pub knows_subject : In ("user_id", (introspect access_token).0.subject) r.bus

  error_response-Rejected :
      (x_language : Bytes) (status : ℕ) (code : ℤ) (cause : String) (ctx : Context)
      → code ≡ pos (status * 1_000_000 + 0)
      → 100 ≤ status
      → status < 1000
      → (r : Context) × (error_response
            (error_of text registry order env introspect true x_language code cause)
            ctx
          ≡ some r)
        × Rejected status ctx r
  unfolding error_response new_error
  error_response-Rejected x_language status code cause ctx c l h =
      let e = error_of text registry order env introspect true x_language code cause in
      (
        record ctx { reply_status = some (pos status); reply = some e; stopped = true },
        rw (status_code-of_nine e status 0 l h (omega arith) c) refl,
        record { status_is = refl; stops = refl; bus_same = refl; passed_same = refl },
      )

  -- The header holds a token that is active, and its answer has the status 200.
  abbrev pub has_active : TokenResult → Bool
  has_active (no_token e) = false
  has_active (token t) = (introspect t).0.active

  abbrev pub is_answered : TokenResult → Bool
  is_answered (no_token e) = false
  is_answered (token t) = (introspect t).1 == 200

  -- The request passes, or is refused for its token, or for the answer about an active token.
  abbrev pub Verdict : Bytes → Context → Context → Type 0
  Verdict authorization ctx r =
      Admitted authorization ctx r
      ⊎ ((has_active (parse_bearer_token authorization) ≡ false) × Rejected 401 ctx r)
      ⊎ ((has_active (parse_bearer_token authorization) ≡ true)
          × (is_answered (parse_bearer_token authorization) ≡ false)
          × Rejected 500 ctx r)

  refused :
      (x_language : Bytes) (cause : String) (authorization : Bytes) (ctx : Context)
      → has_active (parse_bearer_token authorization) ≡ false
      → (r : Context) × (error_response
            (error_of text registry order env introspect true x_language unauthorized_err cause)
            ctx
          ≡ some r)
        × Verdict authorization ctx r
  refused x_language cause authorization ctx h =
      let (r, e, rejected) =
        error_response-Rejected x_language 401 unauthorized_err cause ctx refl (omega arith)
          (omega arith) in
      (r, e, inr (inl (h, rejected)))

  admit-Admitted :
      (x_language authorization t : Bytes) (ctx : Context)
      → parse_bearer_token authorization ≡ token t
      → (introspect t).0.active ≡ true
      → (introspect t).1 ≡ 200
      → Admitted authorization ctx
          (admit text registry order env introspect true x_language t (introspect t).0 ctx)
  admit-Admitted x_language authorization t ctx p on good =
      let subject : String × Bytes = ("user_id", (introspect t).0.subject) in
      let asked = add_bus "language" (parse_x_language order env [] x_language) (
        add_bus "bearer_token" t (
          add_bus "client_id" (introspect t).0.client_id
            (add_bus "user_id" (introspect t).0.subject ctx))) in
      record {
        access_token = t;
        token_is = p;
        is_active = on;
        is_ok = good;
        passes = refl;
        reply_same = add_extra-SameReply (introspect t).0 (introspect t).0.extra asked;
        knows_subject =
            add_extra-More (ctx.bus ++ (subject ∷ [])) (introspect t).0 (introspect t).0.extra asked
              (snoc-More _ _ _ (snoc-More _ _ _ (snoc-More _ _ _ (λ k v i. i)))) "user_id"
              (introspect t).0.subject (In-append_right subject ctx.bus (subject ∷ []) (inl refl));
      }

  with_token-Verdict :
      (x_language authorization : Bytes) (tok : TokenResult) (ctx : Context)
      → parse_bearer_token authorization ≡ tok
      → (r : Context) × (with_token text registry order env introspect true x_language tok ctx
          ≡ some r)
        × Verdict authorization ctx r
  with_token-Verdict x_language authorization (no_token e) ctx p =
      refused x_language _ authorization ctx (ap has_active p)
  with_token-Verdict x_language authorization (token t) ctx p =
      elim (Bool-cases (introspect t).0.active) [
        | inr off ↦
            rw off
              (refused x_language "access token expired." authorization ctx (ap has_active p ∙ off))
        | inl on ↦ elim (Bool-cases ((introspect t).1 == 200)) [
          | inr bad ↦
              let (r, e, rejected) =
                error_response-Rejected x_language 500 internal_err "introspection failed." ctx refl
                  (omega arith) (omega arith) in
              (
                r,
                rw (on, bad) e,
                inr (inr (ap has_active p ∙ on, ap is_answered p ∙ bad, rejected)),
              )
          | inl good ↦
              let r =
                admit text registry order env introspect true x_language t (introspect t).0 ctx in
              (
                r,
                rw (on, good) refl,
                inl (admit-Admitted x_language authorization t ctx p on ((==_iff _ 200).0 good)),
              )
        ]
      ]

  -- Where a worker is in the context, every request gets one of three verdicts, and the handler does not
  -- panic. It passes where its header
  -- has a bearer token that the introspection calls active with the status 200; then no reply is
  -- written and the bus has the token's subject as `user_id`. It is stopped with 401 where there is no
  -- active token, also where the introspection has failed and says nothing of the token; and with 500
  -- where the token is active and the status is another. A request that is stopped has its bus as it was.
  pub authenticate-Verdict :
      (x_language authorization : Bytes) (ctx : Context)
      → (r : Context) × (authenticate text registry order env introspect true x_language
            authorization ctx
          ≡ some r)
        × Verdict authorization ctx r
  unfolding authenticate
  authenticate-Verdict x_language authorization ctx =
      with_token-Verdict x_language authorization (parse_bearer_token authorization) ctx refl
