-- ===== src/Tests/Handlers.antt =====
-- Runs of the handlers.
use vitruvius.Base.{
  ◌++◌, ◌≡◌, ◌≤◌, ◌⊎◌, refl, ap, [], ◌∷◌, Bytes, Text, true, false, some, none, arith, lookup,
  list_beq, length, contains_key, Dict, nat_eq, list_eq, is_some,
}
use vitruvius.Fs.{file}
use vitruvius.Network.{manifest_request, key_exchange_accept}
use vitruvius.State.{AppState, new_state, key_for_peer, has_peer_key, get_peer_key}
use vitruvius.Storage.{PendingFile, FileTransferState}
use vitruvius.Sync.{Env, Node, PeerDownload, max_concurrent_files, window}
use vitruvius.Sync.Scheduler.{start_queued_files, start_or_write, prepared}
use vitruvius.Sync.Bounds.{start_queued_files-bound, start_or_write-requests}
use vitruvius.Sync.Upload.{on_key_exchange_accept, on_request, on_key_exchange_propose}
use vitruvius.Sync.Replies.{Answers, on_request-Answers}
use vitruvius.Sync.Download.{on_encrypted_chunk_response}
use vitruvius.Sync.Rejection.{Genuine, Untouched, on_encrypted_chunk_response-rejects}
use vitruvius.Network.{SyncMessage, chunk_request}
use vitruvius.Sync.Upload.{is_chunk, on_encrypted_chunk_request}
use vitruvius.Sync.Access.{Entitled, on_encrypted_chunk_request-Entitled}
use vitruvius.Storage.{verify_chunk}
use vitruvius.Sync.Download.{check_chunk}
use vitruvius.Sync.Keeping.{Trusted, Kept, check_chunk-Trusted}
use vitruvius.Tests.{pad}
use vitruvius.Base.{remove}
use vitruvius.Sync.Commands.{on_approve, on_revoke_key}
use vitruvius.Sync.Trust.{on_key_exchange_propose-on_revoke_key}
use vitruvius.Sync.Exchange.{Agrees, exchange-Agrees}
use vitruvius.Tests.{toy, tag, key, nonce}

-- "x" and "y"
abbrev pub alice : Text
alice = 120 ∷ []

abbrev pub bob : Text
bob = 121 ∷ []

abbrev pub env : Env
env = record {
  primitives = toy;
  codec = record { to_vec = λ p. none; from_slice = λ b. none };
  hex = record { encode = λ b. b; decode = λ t. some t };
  rng = λ n size. nonce;
  secret = λ n. n ∷ [];
  parses_peer_id = λ t. true;
  local_peer_id = alice;
  store_writable = true;
  parses_addr = λ t. true;
  dials = λ t. true;
  current_dir = [];
  home_dir = none;
}

abbrev pub node_with : AppState → Node
node_with st = record {
  state = st;
  transfers = [];
  fs = record { entries = (((97 ∷ []) ∷ []), file (1 ∷ 2 ∷ 3 ∷ [])) ∷ [] };
  store = [];
  draws = 0;
  now = 0;
  requests = [];
  replies = [];
  events = [];
  delayed = [];
  disconnects = [];
  dialed = [];
  watched = [];
  crashed = false;
}

abbrev pub sharing : AppState
sharing = record (new_state alice) { sync_path = some []; peer_keys = (bob, key) ∷ [] }

on_request-Answers_example :
    Answers (node_with sharing) (on_request env bob manifest_request (node_with sharing))
on_request-Answers_example = on_request-Answers env bob manifest_request (node_with sharing)

on_encrypted_chunk_response-rejects_example :
    Genuine env bob tag 0 (1 ∷ []) (node_with sharing)
    ⊎ Untouched
        (node_with sharing)
        (on_encrypted_chunk_response env bob tag 0 (1 ∷ []) (node_with sharing))
on_encrypted_chunk_response-rejects_example =
    on_encrypted_chunk_response-rejects env bob tag 0 (1 ∷ []) (node_with sharing)

abbrev first_wanted : PendingFile
first_wanted = record {
  file_name = 98 ∷ [];
  total_chunks = 2;
  file_size = 600000;
  chunk_hashes = [];
  file_id = some tag;
}

abbrev wanted : PeerDownload
wanted = record { active = []; queue = first_wanted ∷ [] }

start_queued_files-bound_example :
    (length (start_queued_files env bob [] wanted (node_with sharing)).0.active
      ≤ max_concurrent_files)
    × (((start_queued_files env bob [] wanted (node_with sharing)).0.queue ≡ [])
        ⊎ (length (start_queued_files env bob [] wanted (node_with sharing)).0.active
            ≡ max_concurrent_files))
start_queued_files-bound_example =
    start_queued_files-bound env bob [] wanted (node_with sharing) (omega arith)

abbrev proposer : Node
proposer = node_with (record (new_state alice) { pending_exchanges = (bob, 4 ∷ []) ∷ [] })

abbrev responder : Node
responder = node_with (new_state bob)

toy-Agrees : Agrees toy
toy-Agrees a b = ap (λ n. n ∷ []) (omega arith)

proposed : lookup bob proposer.state.pending_exchanges ≡ some (4 ∷ [])
unfolding lookup list_beq
proposed = refl

no_key : contains_key alice responder.state.peer_keys ≡ false
unfolding contains_key
no_key = refl

not_stored : has_peer_key env.hex responder.store alice ≡ false
unfolding has_peer_key get_peer_key lookup
not_stored = refl

exchange-Agrees_example :
    (key_for_peer (on_key_exchange_propose env alice (4 ∷ []) responder).state alice ≡ none)
    × (answer : Bytes) × ((on_approve env alice
          (on_key_exchange_propose env alice (4 ∷ []) responder)).requests
        ≡ (on_key_exchange_propose env alice (4 ∷ []) responder).requests
          ++ (alice, key_exchange_accept answer) ∷ [])
    × (key_for_peer (on_key_exchange_accept env bob answer proposer).state bob
        ≡ key_for_peer
            (on_approve env alice (on_key_exchange_propose env alice (4 ∷ []) responder)).state
            alice)
    × (is_some (key_for_peer (on_key_exchange_accept env bob answer proposer).state bob) ≡ true)
exchange-Agrees_example =
    exchange-Agrees env env alice bob (4 ∷ []) proposer responder refl toy-Agrees refl proposed
      no_key not_stored

abbrev two_needed : Dict Text FileTransferState × Node
two_needed =
    start_or_write env bob [] first_wanted (prepared [] [] 0 first_wanted) (0 ∷ 1 ∷ []) []
      (node_with sharing)

start_or_write-requests_example : length two_needed.1.requests ≤ window
start_or_write-requests_example =
    start_or_write-requests env bob [] first_wanted (prepared [] [] 0 first_wanted) (0 ∷ 1 ∷ []) []
      (node_with sharing)

on_encrypted_chunk_request-Entitled_example :
    (msg : SyncMessage) × ((on_encrypted_chunk_request env bob tag 0 (node_with sharing)).replies
      ≡ msg ∷ [])
    × ((is_chunk msg ≡ false) ⊎ Entitled env bob tag 0 (node_with sharing))
on_encrypted_chunk_request-Entitled_example =
    on_encrypted_chunk_request-Entitled env bob tag 0 (node_with sharing)

-- One file of one chunk, announced by its hash, of which nothing has come yet.
abbrev running : FileTransferState
running = record {
  metadata = some (record {
    file_name = 98 ∷ [];
    total_chunks = 1;
    file_size = 2;
    is_vault = false;
    chunk_hashes = pad (1 ∷ 2 ∷ []) ∷ [];
  });
  received_chunks = [];
  sync_dir = [];
  next_request = 1;
  last_activity = 0;
  file_id = none;
}

abbrev one_running : PeerDownload
one_running = record { active = (98 ∷ [], running) ∷ []; queue = [] }

running-Trusted :
    Trusted env bob
      (verify_chunk toy)
      (chunk_request (98 ∷ []))
      true
      (98 ∷ [])
      0
      (1 ∷ 2 ∷ [])
      []
      running
unfolding lookup
running-Trusted i d found = cc

check_chunk-Trusted_example :
    Untouched (node_with sharing) (
      check_chunk env bob
        (verify_chunk toy)
        (chunk_request (98 ∷ []))
        true
        (98 ∷ [])
        0
        (1 ∷ 2 ∷ [])
        []
        one_running
        running
        (node_with sharing))
    ⊎ ((ts1 : FileTransferState) × Trusted env bob
          (verify_chunk toy)
          (chunk_request (98 ∷ []))
          true
          (98 ∷ [])
          0
          (1 ∷ 2 ∷ [])
          []
          ts1
        × (lookup 0 ts1.received_chunks ≡ some (1 ∷ 2 ∷ []))
        × Kept env bob
            (verify_chunk toy)
            (chunk_request (98 ∷ []))
            true
            (98 ∷ [])
            0
            (1 ∷ 2 ∷ [])
            []
            one_running
            (node_with sharing)
            (check_chunk env bob
              (verify_chunk toy)
              (chunk_request (98 ∷ []))
              true
              (98 ∷ [])
              0
              (1 ∷ 2 ∷ [])
              []
              one_running
              running
              (node_with sharing))
            ts1)
check_chunk-Trusted_example =
    check_chunk-Trusted env bob (verify_chunk toy) (chunk_request (98 ∷ [])) true (98 ∷ []) 0
      (1 ∷ 2 ∷ []) [] one_running running (node_with sharing) running-Trusted

abbrev bob_env : Env
bob_env = record env { local_peer_id = bob }

on_key_exchange_propose-on_revoke_key_example :
    ((on_key_exchange_propose env bob tag
        (on_revoke_key env bob (node_with sharing))).state.peer_keys
      ≡ remove bob sharing.peer_keys)
    × ((on_key_exchange_propose env bob tag (on_revoke_key env bob (node_with sharing))).store
        ≡ remove bob [])
    × (lookup bob
          (on_key_exchange_propose env bob tag
            (on_revoke_key env bob (node_with sharing))).state.pending_approvals
        ≡ some tag)
on_key_exchange_propose-on_revoke_key_example =
    on_key_exchange_propose-on_revoke_key env bob tag (node_with sharing) refl refl
