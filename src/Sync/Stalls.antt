-- ===== src/Sync/Stalls.antt =====
-- src/sync/handler.rs: what `check_stalls` asks for.
use vitruvius.Base.{
  ℕ, zero, suc, ◌-◌, min, ◌≡◌, refl, sym, ap, subst, ◌∙◌, inl, inr, Option, some, List, [], ◌∷◌,
  ◌++◌, map, append-nil, append_assoc, arith, ltb, if◌then◌else◌, Bool-cases, length, take,
  take-nil, nat_eq, list_eq, Bytes, Text, ◌<◌, is_some, ap₂, Bool, keep_if, true, false, All,
  lookup, ◌⊎◌, not, range, ◌≤◌, as_u32, none, contains, contains_key, length-take, ltb→lt,
  contains_key-eq_none, contains_key-is_some, ltb_false→le,
}
use vitruvius.Network.{SyncMessage, chunk_request, encrypted_chunk_request}
use vitruvius.Storage.{FileMetadata, FileTransferState, missing_chunks, total_of}
use vitruvius.Sync.{Node, window, stall_secs, log, warn}
use vitruvius.Sync.Missing.{
  Ascending, Ascending-take, All-take, take-length, KeptBelow, KeptBelow-keep_if, Ascending-keep_if,
  Covered, Covered-keep_if,
}
use vitruvius.Sync.Scheduler.{send_all, request_of, check_file, request_missing}

-- The requests for the chunks at some positions, in their order.
abbrev pub requests_for : Text → Option Bytes → Text → List ℕ → List (Text × SyncMessage)
requests_for peer file_id name is = map (λ i. (peer, request_of file_id name i)) is

requests-send_all :
    (peer : Text) (file_id : Option Bytes) (name : Text) (is : List ℕ) (n : Node)
    → (send_all peer file_id name is n).requests ≡ n.requests ++ requests_for peer file_id name is
unfolding send_all
requests-send_all peer file_id name [] n = sym (append-nil n.requests)
requests-send_all peer file_id name (i ∷ is) n =
    requests-send_all peer file_id name is _
    ∙ append_assoc n.requests ((peer, request_of file_id name i) ∷ [])
        (requests_for peer file_id name is)

take-min : (k : ℕ) (is : List ℕ) → take (min (length is) k) is ≡ take k is
take-min zero is =
    let none_left : min (length is) 0 ≡ 0 = omega arith in ap (λ m. take m is) none_left
take-min (suc k) [] = take-nil (min 0 (suc k))
take-min (suc k) (i ∷ is) =
    let one_more : min (suc (length is)) (suc k) ≡ suc (min (length is) k) = omega arith in
    ap (λ m. take m (i ∷ is)) one_more ∙ ap (λ l. i ∷ l) (take-min k is)

check_file-requests :
    (peer name : Text) (ts : FileTransferState) (n : Node) (m : FileMetadata)
    → ts.metadata ≡ some m
    → ((check_file peer name ts n).1.requests
        ≡ n.requests
          ++ (if ltb (n.now - ts.last_activity) stall_secs
              then []
              else requests_for peer ts.file_id name (take window (missing_chunks ts))))
      × ((check_file peer name ts n).0.received_chunks ≡ ts.received_chunks)
unfolding check_file
check_file-requests peer name ts n m known =
    elim (Bool-cases (ltb (n.now - ts.last_activity) stall_secs)) [
      | inl soon ↦ rw (soon, check_file) (sym (append-nil n.requests), refl)
      | inr late ↦
          rw (late, check_file)
            (subst
              (λ o.
                ((request_missing peer name ts n o (missing_chunks ts)).1.requests
                  ≡ n.requests
                    ++ requests_for peer ts.file_id name (take window (missing_chunks ts)))
                × ((request_missing peer name ts n o (missing_chunks ts)).0.received_chunks
                    ≡ ts.received_chunks))
              (sym known) (asks (missing_chunks ts)))
    ]
  where
    asks :
        (missing : List ℕ)
        → ((request_missing peer name ts n (some m) missing).1.requests
            ≡ n.requests ++ requests_for peer ts.file_id name (take window missing))
          × ((request_missing peer name ts n (some m) missing).0.received_chunks
              ≡ ts.received_chunks)
    asks [] = (sym (append-nil n.requests), refl)
    asks (i ∷ is) = (
      requests-send_all peer ts.file_id name (take (min (length (i ∷ is)) window) (i ∷ is))
            (log warn n)
          ∙ ap (λ l. n.requests ++ requests_for peer ts.file_id name l) (take-min window (i ∷ is)),
      refl,
    )

-- The message that asks for the chunk at a position: by the file id, if the peer gave one.
abbrev pub asking : Option Bytes → Text → ℕ → SyncMessage
asking none name i = chunk_request name i
asking (some file_id) name i = encrypted_chunk_request file_id (as_u32 i)

abbrev pub Missing : FileTransferState → FileMetadata → ℕ → Type 0
Missing ts m i = (i < m.total_chunks) × (lookup i ts.received_chunks ≡ none)

-- The chunk at a position is there, or the position is listed.
abbrev pub HereOrListed : FileTransferState → List ℕ → ℕ → Type 0
HereOrListed ts is i = (is_some (lookup i ts.received_chunks) ≡ true) ⊎ (contains is i ≡ true)

-- The positions that are asked for: none soon after the last activity; later four, or every
-- position whose chunk is not there.
abbrev pub Asked : Node → FileTransferState → FileMetadata → List ℕ → Type 0
Asked n ts m is =
    ((n.now - ts.last_activity < stall_secs) × (is ≡ []))
    ⊎ ((stall_secs ≤ n.now - ts.last_activity)
        × ((length is ≡ window) ⊎ All (HereOrListed ts is) (range m.total_chunks)))

asking-request_of :
    (file_id : Option Bytes) (name : Text) (i : ℕ)
    → request_of file_id name i ≡ asking file_id name i
unfolding request_of
asking-request_of none name i = refl
asking-request_of (some id) name i = refl

requests_for-asking :
    (peer : Text) (file_id : Option Bytes) (name : Text) (is : List ℕ)
    → requests_for peer file_id name is ≡ map (λ i. (peer, asking file_id name i)) is
requests_for-asking peer file_id name [] = refl
requests_for-asking peer file_id name (i ∷ is) =
    ap₂ (λ msg rest. (peer, msg) ∷ rest) (asking-request_of file_id name i)
      (requests_for-asking peer file_id name is)

module _ (ts : FileTransferState) (m : FileMetadata) (known : ts.metadata ≡ some m) where
  abbrev absent : ℕ → Bool
  absent i = not (contains_key i ts.received_chunks)

  missing_chunks-absent : missing_chunks ts ≡ keep_if absent (range m.total_chunks)
  unfolding missing_chunks
  missing_chunks-absent = ap (λ o. keep_if absent (range (total_of o))) known

  absent-none : (i : ℕ) → absent i ≡ true → lookup i ts.received_chunks ≡ none
  absent-none i gone = elim (Bool-cases (contains_key i ts.received_chunks)) [
    | inl there ↦ absurd (cc (rw there at gone))
    | inr missing ↦ contains_key-eq_none i ts.received_chunks missing
  ]

  absent-some : (i : ℕ) → absent i ≡ false → is_some (lookup i ts.received_chunks) ≡ true
  absent-some i here = elim (Bool-cases (contains_key i ts.received_chunks)) [
    | inl there ↦ contains_key-is_some i ts.received_chunks there
    | inr missing ↦ absurd (cc (rw missing at here))
  ]

  All-Missing : (is : List ℕ) → All (KeptBelow absent m.total_chunks) is → All (Missing ts m) is
  All-Missing [] all = tt
  All-Missing (i ∷ is) ((below, gone), all) = ((below, absent-none i gone), All-Missing is all)

  All-HereOrListed : (is js : List ℕ) → All (Covered absent is) js → All (HereOrListed ts is) js
  All-HereOrListed is [] all = tt
  All-HereOrListed is (j ∷ js) (inl here, all) =
      (inl (absent-some j here), All-HereOrListed is js all)
  All-HereOrListed is (j ∷ js) (inr listed, all) = (inr listed, All-HereOrListed is js all)

  -- The first missing positions are missing, ascend, and are all or as many as the window.
  first_positions :
      (is : List ℕ)
      → take window (keep_if absent (range m.total_chunks)) ≡ is
      → All (Missing ts m) is
        × Ascending 0 is
        × (length is ≤ window)
        × ((length is ≡ window) ⊎ All (HereOrListed ts is) (range m.total_chunks))
  first_positions is first =
      let found = keep_if absent (range m.total_chunks) in
      let at = λ (P : List ℕ → Type 0) (h : P (take window found)). subst P first h in
      (
        at (All (Missing ts m)) (
            All-Missing (take window found) (
              All-take (KeptBelow absent m.total_chunks) window found
                (KeptBelow-keep_if absent m.total_chunks 0 m.total_chunks (omega arith)))),
        at (Ascending 0)
            (Ascending-take window 0 found (Ascending-keep_if absent m.total_chunks 0)),
        at (λ l. length l ≤ window) (omega (arith, length-take window found)),
        at (λ l. (length l ≡ window) ⊎ All (HereOrListed ts l) (range m.total_chunks))
            (elim (take-length window found) [
              | inl full ↦ inl full
              | inr whole ↦ inr (
                  subst (λ l. All (HereOrListed ts l) (range m.total_chunks)) (sym whole)
                    (All-HereOrListed found (range m.total_chunks)
                      (Covered-keep_if absent m.total_chunks 0)))
            ]),
      )

-- For a file with metadata, a stall check asks the peer for the chunks at some positions, at most
-- four, in ascending order, each of a chunk that the file has and that is not there: for none as
-- long as the last activity is less than 20 seconds ago, and otherwise for four, or for every chunk
-- that is not there. The requests name the file by its id, if the transfer has one. The received
-- chunks stay as they are.
pub check_file-stalled :
    (peer name : Text) (ts : FileTransferState) (n : Node) (m : FileMetadata)
    → ts.metadata ≡ some m
    → (is : List ℕ) × ((check_file peer name ts n).1.requests
        ≡ n.requests ++ map (λ i. (peer, asking ts.file_id name i)) is)
      × All (Missing ts m) is
      × Ascending 0 is
      × (length is ≤ window)
      × Asked n ts m is
      × ((check_file peer name ts n).0.received_chunks ≡ ts.received_chunks)
check_file-stalled peer name ts n m known =
    let (asked, kept) = check_file-requests peer name ts n m known in
    elim (Bool-cases (ltb (n.now - ts.last_activity) stall_secs)) [
      | inl soon ↦ ([], rw soon at asked, tt, tt, omega arith, inl (ltb→lt _ _ soon, refl), kept)
      | inr late ↦
          let is = take window (missing_chunks ts) in
          let (missing, up, few, all) =
            first_positions ts m known is
              (ap (take window) (sym (missing_chunks-absent ts m known))) in
          (
            is,
            (rw late at asked)
                ∙ ap (λ l. n.requests ++ l) (requests_for-asking peer ts.file_id name is),
            missing,
            up,
            few,
            inr (ltb_false→le _ _ late, all),
            kept,
          )
    ]
