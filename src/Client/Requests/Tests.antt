-- ===== src/Client/Requests/Tests.antt =====
-- Runs of the request and the recognizer together.
use weightless.Prelude.{◌≡◌, refl, [], codes, replicate, inl, arith}
use weightless.Prelude.Decimal.{decimal}
use weightless.Prelude.Dict
use weightless.Tracker.Query
use weightless.Tracker.Recognize.{started, ok, recognize_announce}
use weightless.Client.Requests.{AnnounceOptions, format_int, announce_query}
use weightless.Client.Requests.Agreement.{IsSendable, meant, recognize_announce-announce_query}

minus_one : format_int 18_446_744_073_709_551_615 ≡ codes "-1"
unfolding format_int decimal
minus_one = refl

abbrev options : AnnounceOptions
options = record {
  info_hash = replicate 20 171;
  peer_id = codes "-WL0001-abcdefghijkl";
  port = 6881;
  uploaded = 0;
  downloaded = 4096;
  left = 12;
  event = codes "started";
}

options-IsSendable : IsSendable options started
options-IsSendable = record {
  hash_length = inl refl;
  peer_id_length = refl;
  port_low = omega arith;
  port_high = omega arith;
  uploaded_range = omega arith;
  downloaded_range = omega arith;
  left_range = omega arith;
  known_event = refl;
}

recognize_announce-announce_query_example :
    recognize_announce (announce_query options []) ≡ ok (meant options started)
recognize_announce-announce_query_example =
    recognize_announce-announce_query options started [] options-IsSendable
      (unfold Query.get Dict.get in refl) (unfold Query.get Dict.get in refl)
