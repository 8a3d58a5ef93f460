-- ===== src/Udpr/Handle.antt =====
-- Handles of peers (dll_src/reliableudp/src/ndll/udprsocket.c): enet_host_peer_to_handle and
-- enet_host_handle_to_peer.
use caffeine_hx.Common.{
  ℕ, ◌+◌, ◌%◌, ◌^◌, ◌≤◌, ◌<◌, ◌≡◌, refl, List, [], ◌∷◌, Option, none, some, length, ltb, ◌==◌,
  if◌then◌else◌, arith, tests, false, Bool-cases, inl, inr,
}

-- A host's peers by their `incomingPeerID`; a pointer to a peer is its place in the array, or no place
-- of it. An ENetPeerHandle has 16 bits.
abbrev pub handle_mod : ℕ
handle_mod = 2 ^ 16

-- The loop over the peers, from the one at place `i` on.
unfoldable pub find_handle : ℕ → ℕ → List ℕ → Option ℕ
find_handle at i [] = none
find_handle at i (id ∷ ids) =
    let rest = find_handle at (i + 1) ids in if i == at then some id else rest

abbrev pub or_count : Option ℕ → ℕ → ℕ
or_count none count = count % handle_mod
or_count (some id) count = id

unfoldable pub peer_to_handle : List ℕ → ℕ → ℕ
unfolding find_handle
peer_to_handle peers at = or_count (find_handle at 0 peers) (length peers)

unfoldable pub handle_to_peer : List ℕ → ℕ → Option ℕ
handle_to_peer peers handle = if ltb handle (length peers) then some handle else none

-- `enet_host_create` numbers the peers by their place.
abbrev pub IsNumbered : ℕ → List ℕ → Type 0
IsNumbered i [] = Unit
IsNumbered i (id ∷ ids) = (id ≡ i) × IsNumbered (i + 1) ids

find_handle-in :
    (at i : ℕ) (peers : List ℕ)
    → IsNumbered i peers
    → i ≤ at
    → at < i + length peers
    → find_handle at i peers ≡ some at
unfolding find_handle
find_handle-in at i [] n a b = absurd (omega arith)
find_handle-in at i (id ∷ ids) n a b = elim (Bool-cases (i == at)) [
  | inl here ↦ let same : id ≡ at = ground (arith, n.0) in rw (here, same) refl
  | inr other ↦ rw other (find_handle-in at (i + 1) ids n.1 (ground arith) (omega arith))
]

find_handle-out :
    (at i : ℕ) (peers : List ℕ) → i + length peers ≤ at → find_handle at i peers ≡ none
unfolding find_handle
find_handle-out at i [] h = refl
find_handle-out at i (id ∷ ids) h =
    let rest = find_handle-out at (i + 1) ids (omega arith) in
    let other : (i == at) ≡ false = ground arith in rw (other, rest) refl

-- The handle of a peer of a host whose peers are numbered, fewer than 2 ^ 16 of them, leads back to
-- the peer; the handle of any other pointer is no valid one.
pub handle_to_peer-peer_to_handle :
    (peers : List ℕ) (at : ℕ)
    → IsNumbered 0 peers
    → length peers < handle_mod
    → handle_to_peer peers (peer_to_handle peers at)
      ≡ (if ltb at (length peers) then some at else none)
unfolding handle_to_peer peer_to_handle
handle_to_peer-peer_to_handle peers at n h = elim (Bool-cases (ltb at (length peers))) [
  | inl within ↦ rw (find_handle-in at 0 peers n (omega arith) (omega tests)) refl
  | inr above ↦
      let none_found = find_handle-out at 0 peers (ground arith) in
      rw (none_found, above) (ground arith)
]
