-- ===== src/Stun/Tests.antt =====
-- A request, and the server's theorem at it.
use natt.Prelude.{◌≡◌, refl, ◌⊎◌, true, [], ◌∷◌, ◌++◌, drop, take, Text, txt, text_eq, lookup}
use natt.Json.{JsonLib, text}
use natt.Json.Plain.{plain, plain_parse, plain_dump, plain_text_at, plain_text_or}
use natt.Relay.Registry.{Endpoint}
use natt.Relay.Server.{received}
use natt.Stun.{
  StunServer, do_receive, first_non_ws, response, send_response, handle_request, handle_datagram,
  handle_receive, max_buf, IsRequest, stun_receive_lem,
}

-- The concrete library with a brace in front of every dump.
abbrev braced : JsonLib
braced = record plain { parse = λ s. plain_parse (drop 1 s); dump = λ fs. 123 ∷ plain_dump fs }

abbrev server : StunServer
server = record { receiving = true; is_open = true; sent = [] }

abbrev client : Endpoint
client = record { address = txt "203.0.113.9"; port = 51820 }

abbrev request : Text
request = 123 ∷ plain_dump ((txt "type", text (txt "stun_request")) ∷ [])

request-run :
    (handle_receive braced (received request client) server).sent
    ≡ record { payload = response braced client; dest = client } ∷ []
unfolding handle_receive handle_datagram handle_request send_response do_receive first_non_ws
    plain_parse plain_text_at plain_text_or lookup text_eq plain_dump
request-run = refl

stun_receive_lem_example :
    ((handle_receive braced (received request client) server).receiving ≡ true)
    × (((handle_receive braced (received request client) server).sent ≡ [])
        ⊎ (IsRequest braced (take max_buf request)
            × ((handle_receive braced (received request client) server).sent
                ≡ [] ++ record { payload = response braced client; dest = client } ∷ [])))
    × (IsRequest braced (take max_buf request)
        → (handle_receive braced (received request client) server).sent
          ≡ [] ++ record { payload = response braced client; dest = client } ∷ [])
stun_receive_lem_example = stun_receive_lem braced request client server
