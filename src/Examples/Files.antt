-- ===== src/Examples/Files.antt =====
-- File transfers at concrete inputs.
use go_send.Base.{
  ℕ, zero, suc, ◌<◌, ◌≡◌, ◌⊎◌, ◌≢◌, refl, true, false, equal_fold, List, [], ◌∷◌, ◌++◌, none, some,
  Bytes, codes, text_eq, length, has, map, All, arith,
}
use go_send.Base.Int.{pos}
use go_send.Base.Dict.{lookup}
use go_send.Crypto.{encrypt, verify, decode_peer_public_key, verify_signed}
use go_send.Protocol.{FileData, FileComplete}
use go_send.Transfer.Chunks.{chunk_count, read_file_chunk}
use go_send.Transfer.Node.{OutboundFileTransfer, InboundFileTransfer, FileSession, FileWire}
use go_send.Transfer.Receive.{mark_received}
use go_send.Transfer.Advance.{IsInOrder, mark_received-IsInOrder}
use go_send.Transfer.Kept.{IsLike-refl}
use go_send.Transfer.Send.{build_file_data}
use go_send.Transfer.Complete.{verify_file_complete}
use go_send.Transfer.Finish.{FileSystem, handle_file_complete}
use go_send.Transfer.Verified.{IsFinalized, handle_file_complete-IsFinalized}
use go_send.Transfer.Arrival.{Attempt, handle_all, IsAttempt, IsAccepted, handle_all-arrives}
use go_send.Examples.Toy.{toy, toy_codec, toy-IsBase64, toy-IsAead, toy-IsRandom, zeros}
use go_send.Examples.Links.{link}

abbrev pub file_wire : FileWire
file_wire = record {
  marshal_response = λ r. some (3 ∷ r.file_id);
  marshal_complete = λ m. some (4 ∷ m.file_id);
  marshal_error = λ e. some (2 ∷ e.code);
}

-- The checksum of the toy is the content itself.
abbrev disk_paths : FileSystem
disk_paths = record { checksum_hex = λ b. b; stored_path = λ dir id name. dir ++ (id ++ name) }

abbrev pub photo : Bytes
photo = 7 ∷ 8 ∷ 9 ∷ 10 ∷ 11 ∷ []

abbrev pub outgoing : OutboundFileTransfer
outgoing = record {
  file_id = codes "f1";
  message_id = [];
  peer_device_id = codes "bob";
  folder_id = [];
  relative_path = [];
  source_path = codes "/p";
  filename = codes "p";
  filesize = 5;
  filetype = [];
  checksum = photo;
  chunk_size = 2;
  total_chunks = 3;
  next_chunk = 0;
  bytes_sent = 0;
  running = true;
  done = false;
  rejected = false;
  canceled = false;
  checkpoint_chunk = 0;
  checkpoint_bytes = 0;
}

abbrev incoming : InboundFileTransfer
incoming = record {
  file_id = codes "f1";
  from_device_id = codes "alice";
  filename = codes "p";
  filesize = 5;
  filetype = [];
  checksum = photo;
  chunk_size = 2;
  total_chunks = 3;
  temp_path = codes "d.part";
  final_path = codes "d";
  received_chunks = [];
  next_chunk = 0;
  bytes_received = 0;
  checkpoint_chunk = 0;
  checkpoint_bytes = 0;
}

abbrev pub receiver : FileSession
receiver = record {
  conn = link;
  node = record {
    device_id = codes "bob";
    private_key = zeros 64;
    download_directory = [];
    file_chunk_size = 2;
    inbound = (codes "f1", incoming) ∷ [];
    outbound = [];
    event_chans = [];
    recent_decisions = [];
    file_response_timeout = 1;
    has_message = λ id. true;
    rows = [];
    checkpoints = [];
    disk = record { files = (codes "d.part", zeros 5) ∷ []; writable = true };
    log = [];
  };
}

-- The message of a chunk with this content.
abbrev chunk_message : ℕ → Bytes → FileData
chunk_message index chunk = record {
  file_id = codes "f1";
  chunk_index = pos index;
  total_chunks = pos 3;
  chunk_size = pos (length chunk);
  encrypted_data = zeros 32 ++ chunk;
  iv = zeros 12;
  timestamp = pos 1;
}

abbrev attempt : ℕ → Bytes → Attempt
attempt index chunk = record {
  index = index;
  sent_at = 1_000_000;
  sender = link;
  handled_at = 2_000_000;
  message = chunk_message index chunk;
}

-- Out of order, with the first chunk twice.
abbrev attempts : List Attempt
attempts =
    attempt 2 (11 ∷ [])
    ∷ attempt 0 (7 ∷ 8 ∷ [])
    ∷ attempt 1 (9 ∷ 10 ∷ [])
    ∷ attempt 0 (7 ∷ 8 ∷ [])
    ∷ []

attempts-IsAttempt : All (IsAttempt toy toy_codec file_wire outgoing photo (zeros 32)) attempts
unfolding build_file_data read_file_chunk encrypt
attempts-IsAttempt = (
  record { in_file = omega arith; key_is = refl; built = refl },
  (
    record { in_file = omega arith; key_is = refl; built = refl },
    (
      record { in_file = omega arith; key_is = refl; built = refl },
      (record { in_file = omega arith; key_is = refl; built = refl }, tt),
    ),
  ),
)

incoming-IsAccepted : IsAccepted toy toy_codec file_wire outgoing photo (zeros 32) incoming receiver
unfolding chunk_count lookup text_eq
incoming-IsAccepted = record {
  named = refl;
  same_id = refl;
  same_size = refl;
  same_total = refl;
  pos_size = omega arith;
  total = refl;
  u = incoming;
  found = refl;
  like = IsLike-refl incoming;
  empty = refl;
  content = zeros 5;
  stored = refl;
  same_length = refl;
  writable = refl;
  key_is = refl;
}

every_chunk : (k : ℕ) → k < 3 → has k (map (λ (a : Attempt). a.index) attempts) ≡ true
every_chunk zero h = refl
every_chunk (suc zero) h = refl
every_chunk (suc (suc zero)) h = refl
every_chunk (suc (suc (suc k))) h = absurd (omega arith)

abbrev done_message : FileComplete
done_message = record {
  file_id = codes "f1";
  status = codes "complete";
  message = [];
  timestamp = pos 3;
  signature = zeros 64;
}

-- The session once every attempt was handled.
abbrev all_handled : FileSession
all_handled = handle_all toy toy_codec file_wire attempts receiver

done_signed : verify_file_complete toy toy_codec file_wire link.peer_public_key done_message ≡ true
unfolding verify_file_complete verify_signed verify decode_peer_public_key
done_signed = refl

photo_sum : equal_fold photo photo ≡ true
unfolding equal_fold
photo_sum = refl

part_apart : codes "d.part" ≢ codes "d"
part_apart h = absurd (ground (arith, h))

handle_all-arrives_example :
    let s2 =
      handle_file_complete toy toy_codec file_wire disk_paths 3_000_000 done_message all_handled in
    (lookup (codes "d") s2.node.disk.files ≡ some photo)
    × (lookup (codes "d.part") s2.node.disk.files ≡ none)
    × (lookup (codes "f1") s2.node.inbound ≡ none)
handle_all-arrives_example =
    handle_all-arrives toy toy_codec file_wire toy-IsBase64 toy-IsAead toy-IsRandom disk_paths
      outgoing photo (zeros 32) incoming attempts 3_000_000 done_message receiver
      incoming-IsAccepted attempts-IsAttempt every_chunk photo_sum part_apart refl refl done_signed

handle_file_complete-IsFinalized_example :
    let s' =
      handle_file_complete toy toy_codec file_wire disk_paths 3_000_000 done_message all_handled in
    (s'.node.disk ≡ all_handled.node.disk)
    ⊎ IsFinalized toy toy_codec file_wire disk_paths done_message all_handled s'
handle_file_complete-IsFinalized_example =
    handle_file_complete-IsFinalized toy toy_codec file_wire disk_paths 3_000_000 done_message
      all_handled

-- Chunk 2 has arrived.
abbrev with_last : InboundFileTransfer
with_last = record incoming { received_chunks = 2 ∷ 0 ∷ []; next_chunk = 1 }

with_last-IsInOrder : IsInOrder with_last
with_last-IsInOrder = record {
  in_file = (omega arith, (omega arith, tt));
  prefix = λ k h. ground (arith, h);
  missing = refl;
}

mark_received-IsInOrder_example : IsInOrder (mark_received 1 2 with_last)
mark_received-IsInOrder_example =
    mark_received-IsInOrder 1 2 with_last with_last-IsInOrder (omega arith)
