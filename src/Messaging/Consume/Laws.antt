-- ===== src/Messaging/Consume/Laws.antt =====
-- Every delivery is settled once. The context of a failure stays in the process.
use mygo_microservices.Prelude.{
  String, ◌≡◌, refl, some, [], ◌∷◌, arith, ◌==◌, if◌then◌else◌, eq_iff,
}
use mygo_microservices.Go.{Error, error_text}
use mygo_microservices.Messaging.Consume.{
  HeaderValue, text, int, Headers, put_header, header, Envelope, death_headers,
}

header-put_header :
    (k j : String) (v : HeaderValue) (hs : Headers)
    → header j (put_header k v hs) ≡ (if k == j then some v else header j hs)
unfolding header put_header
header-put_header k j v [] = refl
header-put_header k j v ((i, w) ∷ hs) =
    ground (arith, eq_iff k j, eq_iff i k, eq_iff i j, header-put_header k j v hs)

-- The headers written for a failure hold the error's text, the delivery's exchange, its routing key
-- and the retry count, whatever headers it had.
pub death_headers_lem :
    (library : Error → String) (d : Envelope) (e : Error)
    → let hs = death_headers library d e in
      (header "x-death-reason" hs ≡ some (text (error_text library e)))
      × (header "x-origin-exchange" hs ≡ some (text d.exchange))
      × (header "x-original-routing-key" hs ≡ some (text d.routing_key))
      × (header "x-retry-count" hs ≡ some (int 3))
unfolding death_headers
death_headers_lem library d e =
    (simp header-put_header, simp header-put_header, simp header-put_header, simp header-put_header)
