-- ===== src/Udpr/Send.antt =====
-- udpr_write, udpr_send and udpr_send_char of dll_src/reliableudp/src/ndll/udprsocket.c.
use caffeine_hx.Common.{
  ℕ, ◌+◌, ◌≤◌, ◌≡◌, refl, Bool, true, ◌&&◌, List, [], ◌∷◌, Option, none, some, length, length-take,
  length-drop, take, drop, take_all, leb, arith, if◌then◌else◌, ◌⊎◌, inl, inr, Bool-cases,
}
use caffeine_hx.Common.Int.{ℤ, pos}
use caffeine_hx.Udpr.Enet.{Packet, Enet, Arg, int, string, bool, peer}

module _ (e : Enet) where
  -- `if(enet_peer_send(peer, c, packet)) neko_error();` and the result otherwise
  unfoldable pub send_packet : {A : Type 0} → ℕ → ℕ → Packet → A → e.World → e.World × Option A
  send_packet p c packet result w =
      let (w', error) = e.peer_send p c packet w in (w', if error then none else some result)

  -- `udpr_write(p, data, chan, reliable)`; `none` is neko_error.
  unfoldable pub udpr_write : Arg → Arg → Arg → Arg → e.World → e.World × Option Bool
  unfolding send_packet
  udpr_write (peer (some p)) (string text) (int (pos c)) (bool reliable) w =
      if leb c 255
      then send_packet p c (record { bytes = text; reliable = reliable }) true w
      else (w, none)
  udpr_write _ _ _ _ w = (w, none)

  -- `udpr_send(p, data, pos, len, chan, reliable)`. A Neko int has 31 bits, so `pp + l` fits an `int`.
  unfoldable pub udpr_send : Arg → Arg → Arg → Arg → Arg → Arg → e.World → e.World × Option ℕ
  unfolding send_packet
  udpr_send (peer (some p)) (string text) (int (pos pp)) (int (pos l)) (int (pos c)) (bool reliable)
        w =
      if leb c 255 && leb pp (length text) && leb (pp + l) (length text)
      then send_packet p c (record { bytes = take l (drop pp text); reliable = reliable }) l w
      else (w, none)
  udpr_send _ _ _ _ _ _ w = (w, none)

  -- `udpr_send_char(p, data, chan, reliable)`
  unfoldable pub udpr_send_char : Arg → Arg → Arg → Arg → e.World → e.World × Option Bool
  unfolding send_packet
  udpr_send_char (peer (some p)) (int (pos d)) (int (pos c)) (bool reliable) w =
      if leb c 255 && leb d 255
      then send_packet p c (record { bytes = d ∷ []; reliable = reliable }) true w
      else (w, none)
  udpr_send_char _ _ _ _ w = (w, none)

  -- What a call did: ENet is as it was and neko_error is called; or one packet with a range of the
  -- string was handed to ENet, on a channel that fits a byte, and its length is the result.
  abbrev pub Sent : List ℕ → Option ℕ → e.World → e.World → Type 0
  Sent text result w w' =
      ((w' ≡ w) × (result ≡ none))
      ⊎ ((p : ℕ) × (c : ℕ) × (start : ℕ) × (packet : Packet) × (start + length packet.bytes
            ≤ length text)
          × (packet.bytes ≡ take (length packet.bytes) (drop start text))
          × (c ≤ 255)
          × (w' ≡ (e.peer_send p c packet w).0)
          × (result ≡ (if (e.peer_send p c packet w).1 then none else some (length packet.bytes))))

  send_packet-Sent :
      (text : List ℕ) (p c pp l : ℕ) (reliable : Bool) (w : e.World)
      → c ≤ 255
      → pp + l ≤ length text
      → let packet : Packet = record { bytes = take l (drop pp text); reliable = reliable } in
        Sent text (send_packet p c packet l w).1 w (send_packet p c packet l w).0
  unfolding send_packet
  send_packet-Sent text p c pp l reliable w h k =
      let size : length (take l (drop pp text)) ≡ l =
        omega (arith, length-take l (drop pp text), length-drop pp text) in
      inr (
        p,
        c,
        pp,
        record { bytes = take l (drop pp text); reliable = reliable },
        omega (arith, size),
        rw size refl,
        h,
        refl,
        rw size refl,
      )

  -- udpr_send, on arguments of the right types, a NULL peer and negative numbers included: what it
  -- sends lies within the string, and where it sends nothing ENet is as it was.
  pub udpr_send-Sent :
      (p : Option ℕ) (text : List ℕ) (pp l c : ℤ) (reliable : Bool) (w : e.World)
      → let r = udpr_send (peer p) (string text) (int pp) (int l) (int c) (bool reliable) w in
        Sent text r.1 w r.0
  unfolding udpr_send
  udpr_send-Sent (some p) text (pos pp) (pos l) (pos c) reliable w =
      elim (Bool-cases (leb c 255 && leb pp (length text) && leb (pp + l) (length text))) [
        | inl fits ↦
            rw fits (send_packet-Sent text p c pp l reliable w (ground arith) (ground arith))
        | inr out ↦ rw out (inl (refl, refl))
      ]
  udpr_send-Sent _ text _ _ _ reliable w = inl (refl, refl)

  -- udpr_send of a whole string leaves ENet as udpr_write of it does.
  pub udpr_send-udpr_write :
      (p : Option ℕ) (text : List ℕ) (c : ℤ) (reliable : Bool) (w : e.World)
      → (udpr_send
          (peer p)
          (string text)
          (int (pos 0))
          (int (pos (length text)))
          (int c)
          (bool reliable)
          w).0
        ≡ (udpr_write (peer p) (string text) (int c) (bool reliable) w).0
  unfolding udpr_send udpr_write send_packet
  udpr_send-udpr_write (some p) text (pos c) reliable w =
      let whole : (leb c 255 && leb 0 (length text) && leb (0 + length text) (length text))
          ≡ leb c 255 =
        ground arith in
      rw (whole, take_all (length text) text (omega arith))
        (elim (Bool-cases (leb c 255)) [ inl fits ↦ rw fits refl | inr out ↦ rw out refl ])
  udpr_send-udpr_write _ text _ reliable w = refl

  -- udpr_send_char of a byte is udpr_write of the string that has it alone.
  pub udpr_send_char-udpr_write :
      (p : Option ℕ) (d : ℕ) (c : ℤ) (reliable : Bool) (w : e.World)
      → d ≤ 255
      → udpr_send_char (peer p) (int (pos d)) (int c) (bool reliable) w
        ≡ udpr_write (peer p) (string (d ∷ [])) (int c) (bool reliable) w
  unfolding udpr_send_char udpr_write
  udpr_send_char-udpr_write (some p) d (pos c) reliable w h =
      let fits : leb d 255 ≡ true = ground arith in rw fits (ground arith)
  udpr_send_char-udpr_write _ d _ reliable w h = refl
