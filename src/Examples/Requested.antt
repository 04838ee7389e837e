-- ===== src/Examples/Requested.antt =====
-- The accepting of a file request at concrete inputs.
use go_send.Base.{◌≡◌, refl, true, [], none, codes, length, arith}
use go_send.Base.Int.{pos}
use go_send.Protocol.{FileRequest}
use go_send.Transfer.Chunks.{chunk_count}
use go_send.Transfer.Node.{FileSession}
use go_send.Storage.Files.{get_file_by_id}
use go_send.Transfer.Accept.{new_inbound, finalize_inbound_file_request}
use go_send.Transfer.Accepted.{finalize_inbound_file_request-IsAccepted}
use go_send.Transfer.Arrival.{IsAccepted}
use go_send.Examples.Toy.{toy, toy_codec, zeros}
use go_send.Examples.Files.{file_wire, photo, outgoing, receiver}

abbrev photo_request : FileRequest
photo_request = record {
  file_id = codes "f1";
  folder_id = [];
  relative_path = [];
  from_device_id = codes "alice";
  to_device_id = codes "bob";
  filename = codes "p";
  filesize = pos 5;
  filetype = [];
  checksum = photo;
  sequence = 5;
  timestamp = pos 1;
  signature = [];
}

-- Before the request.
abbrev asked : FileSession
asked = record receiver {
  node = record receiver.node { inbound = []; disk = record { files = []; writable = true } };
}

outgoing_total : 3 ≡ chunk_count (length photo) 2
unfolding chunk_count
outgoing_total = refl

no_row : get_file_by_id (codes "f1") [] ≡ none
unfolding get_file_by_id
no_row = refl

finalize_inbound_file_request-IsAccepted_example :
    IsAccepted toy toy_codec file_wire outgoing photo
      (zeros 32)
      (new_inbound photo_request 5 2 (codes "d"))
      (finalize_inbound_file_request toy toy_codec file_wire 1_000_000 photo_request [] []
        (codes "d")
        true
        []
        asked)
finalize_inbound_file_request-IsAccepted_example =
    finalize_inbound_file_request-IsAccepted toy toy_codec file_wire outgoing photo 1_000_000
      photo_request [] [] (codes "d") [] asked refl no_row refl (omega arith) refl refl refl
      outgoing_total
