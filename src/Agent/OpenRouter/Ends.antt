-- ===== src/Agent/OpenRouter/Ends.antt =====
-- webrtc-agents/pkg/llm: how a request to the language model ends.
use Prim.Native.String.{◌++◌ as str_append}
use webrtc_chat.Prelude.{
  String, ◌≡◌, ◌≢◌, refl, sym, Bool-cases, none, some, inl, inr, arith, Sum-cases, Option-cases,
  nat_eq,
}
use mathlib.Core.Path.{subst}
use webrtc_chat.Agent.ChatBot.{CompletionRequest, response_text}
use webrtc_chat.Agent.OpenRouter.{
  Url, HttpResponse, Service, OpenRouterCompletionProxy, OpenRouterResponse, get_base_url,
  get_completion_url, completion_request, get_error_response, api_error, accepted_body, exchange,
  generate, texts,
}

module _ (p : OpenRouterCompletionProxy) (c : Service) where
  abbrev pub completion_url : Url → String
  completion_url url = c.url_string (record url { path = str_append url.path "/chat/completions" })

  -- The service answers a request that is sent.
  pub record Replied (request : CompletionRequest) (reply : HttpResponse) : Type 0 where
    pub url : Url
    pub body : String
    pub parsed : c.parse_url (get_base_url p) ≡ inl url
    pub marshalled : c.marshal request ≡ inl body
    pub built : c.new_request (completion_url url) body ≡ none
    pub replied : c.do_request (completion_request p c (completion_url url) body) ≡ inl reply

  -- The text that a request ends with: of the service's response, or of what fails first.
  pub data Told (request : CompletionRequest) : String → Type 0 where
    accepted :
        {reply : HttpResponse} {answer : String} {response : OpenRouterResponse}
        → Replied request reply
        → reply.body ≡ inl answer
        → reply.status_code ≡ 200
        → c.unmarshal answer ≡ inl response
        → Told request (response_text (texts response))
    url_refused :
        {e : String}
        → c.parse_url (get_base_url p) ≡ inr e
        → Told request (
            str_append "Failed to build completion URL: "
              (str_append "failed to parse base URL: " e))
    not_marshalled :
        {e : String}
        → c.marshal request ≡ inr e
        → Told request (str_append "Failed to marshal request: " e)
    not_built :
        {url : Url} {body e : String}
        → c.parse_url (get_base_url p) ≡ inl url
        → c.marshal request ≡ inl body
        → c.new_request (completion_url url) body ≡ some e
        → Told request (str_append "Failed to create request: " e)
    not_sent :
        {url : Url} {body e : String}
        → c.parse_url (get_base_url p) ≡ inl url
        → c.marshal request ≡ inl body
        → c.new_request (completion_url url) body ≡ none
        → c.do_request (completion_request p c (completion_url url) body) ≡ inr e
        → Told request (str_append "Failed to send request: " e)
    not_read :
        {reply : HttpResponse} {e : String}
        → Replied request reply
        → reply.body ≡ inr e
        → Told request (str_append "Failed to read response: " e)
    bad_status :
        {reply : HttpResponse} {answer : String}
        → Replied request reply
        → reply.body ≡ inl answer
        → reply.status_code ≢ 200
        → Told request (api_error reply.status_code answer)
    not_parsed :
        {reply : HttpResponse} {answer e : String}
        → Replied request reply
        → reply.body ≡ inl answer
        → reply.status_code ≡ 200
        → c.unmarshal answer ≡ inr e
        → Told request (str_append "Failed to parse response: " e)

  failed :
      (request : CompletionRequest) {e : String}
      → exchange p c request ≡ inr e
      → Told request e
      → Told request (response_text (texts (generate p c request)))
  unfolding generate response_text
  failed request {e} h t =
      let ended : generate p c request ≡ get_error_response c request.model e =
        rw (generate, h) refl in
      subst (λ r. Told request (response_text (texts r))) (sym ended) t

  answered :
      (request : CompletionRequest) {response : OpenRouterResponse}
      → exchange p c request ≡ inl response
      → Told request (response_text (texts response))
      → Told request (response_text (texts (generate p c request)))
  unfolding generate
  answered request {response} h t =
      let ended : generate p c request ≡ response = rw (generate, h) refl in
      subst (λ r. Told request (response_text (texts r))) (sym ended) t

  reply-Told :
      (request : CompletionRequest) (reply : HttpResponse)
      → Replied request reply
      → Told request (response_text (texts (generate p c request)))
  unfolding exchange get_completion_url accepted_body
  reply-Told request reply r = elim (Sum-cases reply.body) [
    | inr (e, b) ↦
        failed request (cc (r.parsed, r.marshalled, r.built, r.replied, b)) (not_read r b)
    | inl (answer, b) ↦ elim (Bool-cases (nat_eq reply.status_code 200)) [
      | inr s ↦
          failed request (cc (r.parsed, r.marshalled, r.built, r.replied, b, s))
            (bad_status r b (ground arith))
      | inl s ↦ elim (Sum-cases (c.unmarshal answer)) [
        | inr (e, u) ↦
            failed request (cc (r.parsed, r.marshalled, r.built, r.replied, b, s, u))
              (not_parsed r b (ground arith) u)
        | inl (response, u) ↦
            answered request {response = response}
              (cc (r.parsed, r.marshalled, r.built, r.replied, b, s, u))
              (accepted r b (ground arith) u)
      ]
    ]
  ]

  pub generate-Told :
      (request : CompletionRequest) → Told request (response_text (texts (generate p c request)))
  unfolding exchange get_completion_url
  generate-Told request = elim (Sum-cases (c.parse_url (get_base_url p))) [
    | inr (e, u) ↦ failed request (rw u refl) (url_refused u)
    | inl (url, u) ↦ elim (Sum-cases (c.marshal request)) [
      | inr (e, m) ↦ failed request (rw (u, m) refl) (not_marshalled m)
      | inl (body, m) ↦ elim (Option-cases (c.new_request (completion_url url) body)) [
        | inr (e, n) ↦ failed request (cc (u, m, n)) (not_built u m n)
        | inl n ↦
            elim (Sum-cases (c.do_request (completion_request p c (completion_url url) body))) [
              | inr (e, d) ↦ failed request (cc (u, m, n, d)) (not_sent u m n d)
              | inl (reply, d) ↦ reply-Told request reply (record {
                url = url;
                body = body;
                parsed = u;
                marshalled = m;
                built = n;
                replied = d;
              })
            ]
      ]
    ]
  ]
