-- ===== src/Application/Services/Form.antt =====
-- http_server.cpp, `handle_lookup_get`: what becomes of a query, by its form.
use ip_server.Base.{
  ℕ, ◌≡◌, refl, ap, ◌∙◌, ◌⊎◌, Bool, true, false, not, ◌&&◌, Option, some, if◌then◌else◌,
}
use ip_server.Base.Text.{Str, codes, empty}
use ip_server.Json.{Json}
use ip_server.Validation.{is_valid_ip_format, is_valid_mac_format}
use ip_server.Http.{Request, Response, Server, LookupHandler, Thrown, send_error_response}
use ip_server.Http.Lookup.{handled, call_handler, answer_query, lookup_query}

-- The query of a request from a client, and whether it is one for a MAC address.
abbrev pub asks_mac : Request → Bool
asks_mac req = not (empty (req.param_value (codes "mac")))

abbrev pub query_of : Request → Str → Str
query_of req client =
    if asks_mac req
    then req.param_value (codes "mac")
    else if empty (req.param_value (codes "ip"))
    then client
    else req.param_value (codes "ip")

module _ (inet_pton getaddrinfo : Str → Bool) where
  abbrev has_form : Request → Str → Bool
  has_form req client =
      if asks_mac req
      then is_valid_mac_format (query_of req client)
      else is_valid_ip_format inet_pton getaddrinfo (query_of req client)

  -- Not for both kinds of address, and of the right form.
  abbrev pub well_formed : Request → Str → Bool
  well_formed req client =
      not (asks_mac req && not (empty (req.param_value (codes "ip")))) && has_form req client

module _ (J : Json) {Services Latency : Type 0} (second : ℕ) (inet_pton getaddrinfo : Str → Bool)
    (now : ℕ) (latency : Latency) where
  abbrev pub handler_of : Request → Server J Services Latency → Option (LookupHandler J Services)
  handler_of req s = if asks_mac req then s.mac_lookup_handler else s.lookup_handler

  module _ (s : Server J Services Latency) (res : Response J) (m : Bool) (q : Str) where
    abbrev Reply : Type 0
    Reply = Server J Services Latency × Response J

    passed :
        (twice form : Bool) (refusal : Reply) (set : Option (LookupHandler J Services))
        (h : LookupHandler J Services) {out : Services × (Thrown ⊎ J.Value)}
        → (not twice && form) ≡ true
        → set ≡ some h
        → h q s.services ≡ out
        → (if twice then refusal else answer_query J second now latency m form q set s res)
          ≡ handled J second now latency s res out
    unfolding answer_query call_handler
    passed true form refusal set h ok e k = absurd (cc ok)
    passed false false refusal set h ok e k = absurd (cc ok)
    passed false true refusal set h ok e k =
        ap (λ o. answer_query J second now latency m true q o s res) e
        ∙ ap (handled J second now latency s res) k

    stopped :
        (twice form : Bool) (set : Option (LookupHandler J Services)) (e : Str)
        → (not twice && form) ≡ false
        → (res' : Response J) × ((if twice
              then (s, send_error_response J 400 (codes "Bad Request") e res)
              else answer_query J second now latency m form q set s res)
            ≡ (s, res'))
          × (res'.status ≡ some 400)
    unfolding answer_query send_error_response
    stopped true form set e bad = (_, refl, refl)
    stopped false false set e bad = (_, refl, refl)
    stopped false true set e bad = absurd (cc bad)

  module _ (req : Request) (client : Str) (s : Server J Services Latency) (res : Response J) where
    -- A well-formed query is answered by its handler.
    pub lookup_query_valid :
        (h : LookupHandler J Services) {out : Services × (Thrown ⊎ J.Value)}
        → well_formed inet_pton getaddrinfo req client ≡ true
        → handler_of req s ≡ some h
        → h (query_of req client) s.services ≡ out
        → lookup_query J second inet_pton getaddrinfo now latency req client s res
          ≡ handled J second now latency s res out
    unfolding lookup_query
    lookup_query_valid h ok set k =
        passed s res (asks_mac req) (query_of req client)
          (asks_mac req && not (empty (req.param_value (codes "ip"))))
          (has_form inet_pton getaddrinfo req client) _ (handler_of req s) h ok set k

    -- Any other is refused.
    pub lookup_query_invalid :
        well_formed inet_pton getaddrinfo req client ≡ false
        → (res' : Response J) × (lookup_query J second inet_pton getaddrinfo now latency req client
              s res
            ≡ (s, res'))
          × (res'.status ≡ some 400)
    unfolding lookup_query
    lookup_query_invalid bad =
        stopped s res (asks_mac req) (query_of req client)
          (asks_mac req && not (empty (req.param_value (codes "ip"))))
          (has_form inet_pton getaddrinfo req client) (handler_of req s) _ bad
