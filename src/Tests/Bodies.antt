-- ===== src/Tests/Bodies.antt =====
-- The reader of backend/src/handlers.cpp on the body that the browser client sends.
use frag.Prelude.{◌≡◌, refl, arith}
use frag.Prelude.Int.{pos}
use frag.Text.{Bytes, codes}
use frag.Fragment.{Fragment}
use frag.Handlers.{fragment_of_body}
use frag.Json.Grammar.{Denotes}
use frag.Handlers.Body.{IsSendable, client_body}
use frag.Handlers.Body.Client.{IsClientFragment, client_value, fragment_of_body-client_body}

abbrev pub sent_text : Bytes
sent_text =
    codes
      "{\"id\":\"i2\",\"message_id\":\"m1\",\"chat_id\":\"c1\",\"sender_hash\":\"s1\",\"payload\":\"p1\",\"ttl\":60}"

abbrev pub sent_fragment : Fragment
sent_fragment = record {
  id = codes "i2";
  message_id = codes "m1";
  chat_id = codes "c1";
  sender_hash = codes "s1";
  payload = codes "p1";
  timestamp = pos 0;
  ttl = pos 60;
}

pub sent_fragment-IsSendable : IsSendable sent_fragment
sent_fragment-IsSendable = record {
  id = (ground arith, ground arith);
  message_id = (ground arith, ground arith);
  chat_id = (ground arith, ground arith);
  sender_hash = (ground arith, ground arith);
  payload = (ground arith, ground arith);
  ttl = ground arith;
}

sent_fragment-IsClientFragment : IsClientFragment sent_fragment
sent_fragment-IsClientFragment = record {
  id = (ground arith, ground arith);
  message_id = (ground arith, ground arith);
  chat_id = (ground arith, ground arith);
  sender_hash = (ground arith, ground arith);
  payload = (ground arith, ground arith);
  ttl = ground arith;
}

fragment_of_body-client_body_example :
    Denotes (client_body sent_fragment) (client_value sent_fragment)
    × (fragment_of_body (client_body sent_fragment) (pos 30)
        ≡ record sent_fragment { timestamp = pos 30 })
fragment_of_body-client_body_example =
    fragment_of_body-client_body sent_fragment sent_fragment-IsClientFragment (pos 30)

client_body_text : client_body sent_fragment ≡ sent_text
unfolding frag.Text.Number.print_int
client_body_text = refl
