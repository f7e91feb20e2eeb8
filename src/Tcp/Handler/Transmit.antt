-- ===== src/Tcp/Handler/Transmit.antt =====
-- tcp/handler.go: `Write`, and `Send`, which fills a buffer with the next frame. What `Send`
-- returns is the handler, the buffer, the number of bytes of the frame and the error.
use lneto.Base.{
  ℕ, ◌+◌, ◌-◌, ◌*◌, ◌%◌, ◌^◌, inl, inr, Bool, true, false, not, ◌&&◌, ◌||◌, Option, none, some,
  List, [], ◌∷◌, ◌++◌, ltb, ◌==◌, if◌then◌else◌, bit_or, length, take, drop, write_at, Ran, ran,
  panicked,
}
use lneto.Tcp.Value.{Size}
use lneto.Tcp.Segment.{
  State, syn_sent, syn_rcvd, time_wait, close_wait, ◌is◌, tx_data_open, Segment, flag_psh, flag_ack,
  flag_rst, synack, has_any, client_syn_segment,
}
use lneto.Tcp.Control.Block.{has_pending, retransmit_from, close_block}
use lneto.Tcp.Control.Send.{pending_segment}
use lneto.Tcp.RingTx.{RingTx, buffered_unsent, make_packet}
use lneto.Tcp.Frame.{
  size_header_tcp, new_frame, offset_and_flags, set_offset_and_flags, clear_header, set_source_port,
  set_destination_port, set_segment, set_urgent_ptr,
}
use lneto.Tcp.Handler.{
  Error, net_closed, eof, connection_closing, frame, scb, tx, Handler, is_tx_over,
  awaiting_syn_send, next_segment_is_retransmit, recv_window, wire_wnd, put_syn_options,
}
use lneto.Tcp.Handler.Policy.{Policy, transmit_unlimited}
use lneto.Tcp.Handler.Open.{reset, abort_handler}
use lneto.Internal.Ring
use lneto.Tcp.RingTx
use lneto.Tcp.Control.Send

-- The segment that `Send` chose, with its offset in words; or what it returns at once, with no
-- bytes.
pub data Chosen {ℓ} (P : Type ℓ) : Type ℓ where
  chosen : Handler P → List ℕ → Segment → ℕ → Chosen P
  returned : Handler P → List ℕ → Option Error → Chosen P
  panics : Chosen P

module _ {ℓ} {P : Type ℓ} where
  unfoldable pub write : Handler P → List ℕ → Ran (Handler P × ℕ × Option Error)
  write h b =
      if h.closing
      then ran (h, 0, some connection_closing)
      else if not (tx_data_open h.scb.state)
      then ran (h, 0, some net_closed)
      else elim (RingTx.write h.buf_tx b) [
        | panicked ↦ panicked
        | ran (buf_tx', n, some e) ↦ ran (record h { buf_tx = buf_tx' }, n, some (tx e))
        | ran (buf_tx', n, none) ↦ ran (record h { buf_tx = buf_tx' }, n, none)
      ]

  -- A segment of data takes its bytes from the transmit ring.
  unfoldable pub choose_data : Handler P → List ℕ → ℕ → Segment → Chosen P
  choose_data h b offset seg = elim (make_packet h.buf_tx seg.datalen seg.seq) [
    | panicked ↦ panics
    | ran (bytes, some e, buf_tx') ↦ returned (record h { buf_tx = buf_tx' }) b (some (tx e))
    | ran (bytes, none, buf_tx') ↦
        let n = length bytes in
        chosen (record h { buf_tx = buf_tx' }) (write_at b (offset * 4) bytes)
          (record seg {
            datalen = n;
            flags = if ltb 0 n then bit_or seg.flags flag_psh else seg.flags;
          })
          offset
  ]

  unfoldable pub choose_pending : Handler P → List ℕ → ℕ → ℕ → Size → Chosen P
  unfolding choose_data
  choose_pending h b offset mss tx_limit =
      let room = length b - offset * 4 in
      let max_payload =
        if ltb tx_limit room && not (next_segment_is_retransmit h) then tx_limit else room in
      elim (pending_segment h.scb max_payload) [
        | panicked ↦ panics
        | ran none ↦ returned h b none
        | ran (some pending) ↦
            let seg = record pending { wnd = recv_window h } in
            let (opts, words) = put_syn_options h (drop (offset * 4) b) mss true in
            if seg.flags == synack
            then chosen h (take (offset * 4) b ++ opts) seg (offset + words)
            else if ltb 0 seg.datalen
            then choose_data h b offset seg
            else chosen h b seg offset
      ]

  -- The `if` that makes the segment.
  unfoldable pub choose : Handler P → List ℕ → ℕ → Size → Bool → Chosen P
  unfolding choose_pending
  choose h b offset tx_limit awaiting_syn =
      let mss = (length b - size_header_tcp) % 2 ^ 16 in
      let head = take (offset * 4) b in
      let (opts, words) = put_syn_options h (drop (offset * 4) b) mss false in
      let (opts', words') = put_syn_options h (drop (offset * 4) b) mss true in
      if awaiting_syn || h.requeue_control && h.scb.state is syn_sent
      then chosen h (head ++ opts) (client_syn_segment h.buf_tx.iss (length h.buf_rx.buf))
          (offset + words)
      else if h.requeue_control && h.scb.state is syn_rcvd
      then chosen h (head ++ opts')
          (record {
            seq = h.scb.snd.una;
            ack = h.scb.rcv.nxt;
            datalen = 0;
            wnd = Ring.free h.buf_rx;
            flags = synack;
          })
          (offset + words')
      else if h.requeue_control
      then returned (record h { requeue_control = false }) b none
      else choose_pending h b offset mss tx_limit

-- What `Send` returns.
abbrev pub Sent {ℓ} : Type ℓ → Type ℓ
Sent P = Handler P × List ℕ × ℕ × Option Error

module _ {ℓ} {P : Type ℓ} (steer : Policy P) where
  -- The frame of `datalen` bytes is shown to the policy.
  unfoldable pub post_tx_call : Handler P → List ℕ → ℕ → Handler P × List ℕ
  post_tx_call h b datalen = elim h.policy [
    | none ↦ (h, b)
    | some p ↦ elim (new_frame (take datalen b)) [
      | inr e ↦ (h, b)
      | inl sent ↦
          let (p', sent') = Policy.post_tx steer p h (take datalen b) in
          (record h { policy = some p' }, sent' ++ drop datalen b)
    ]
  ]

  -- The end of `Send`, for a segment that the control block accepted.
  unfoldable pub send_frame : Handler P → List ℕ → Segment → ℕ → State → Ran (Sent P)
  unfolding post_tx_call
  send_frame h b seg offset prev_state =
      let h1 = record h { requeue_control = false } in
      let ports =
        set_destination_port (set_source_port (record { buf = b }) h1.local_port) h1.remote_port in
      elim (set_segment ports (record seg { wnd = wire_wnd h1 seg }) offset) [
        | panicked ↦ panicked
        | ran tfrm ↦
            let datalen = offset * 4 + seg.datalen in
            let (h2, b') = post_tx_call h1 (set_urgent_ptr tfrm 0).buf datalen in
            let h3 =
              if prev_state is time_wait && has_any seg.flags flag_ack
              then reset steer h2 0 0 0
              else if has_any seg.flags flag_rst
              then abort_handler steer h2
              else h2 in
            ran (h3, b', datalen, none)
      ]

  unfoldable pub send_chosen : Chosen P → Ran (Sent P)
  unfolding send_frame
  send_chosen panics = panicked
  send_chosen (returned h b err) = ran (h, b, 0, err)
  send_chosen (chosen h b seg offset) =
      let (tcb, err) = Send.send h.scb seg in
      let h1 = record h { scb = tcb } in
      elim err [
        | some e ↦ ran (h1, b, 0, some (scb e))
        | none ↦ send_frame h1 b seg offset h.scb.state
      ]

  -- `Send` after the policy was asked.
  unfoldable pub send_steered : Handler P → List ℕ → ℕ → Size → Ran (Sent P)
  unfolding send_chosen choose
  send_steered h b offset tx_limit =
      let awaiting_syn = awaiting_syn_send h in
      let buffered = buffered_unsent h.buf_tx in
      let pending = has_pending h.scb in
      let closing = h.closing || h.scb.state is close_wait && buffered == 0 && not pending in
      let h1 = record h { closing = closing } in
      let (tcb, err) = close_block h.scb in
      let closed_now = record h1 { closing = false; scb = tcb } in
      if not awaiting_syn && not h.requeue_control && buffered == 0 && not closing && not pending
      then ran (h1, b, 0, none)
      else if buffered == 0 && closing && (not (h.scb.state is close_wait) || not pending)
      then elim err [
        | some e ↦ ran (abort_handler steer closed_now, b, 0, some eof)
        | none ↦ send_chosen (choose closed_now b offset tx_limit awaiting_syn)
      ]
      else send_chosen (choose h1 b offset tx_limit awaiting_syn)

  -- What the policy asks for: a limit, a retransmission, and options that raise the offset.
  unfoldable pub pre_tx_call : Handler P → P → List ℕ → Handler P × List ℕ × ℕ × Size
  pre_tx_call h p b =
      let cleared = set_offset_and_flags (clear_header (record { buf = b })) 5 0 in
      let (p', b', steering) = Policy.pre_tx steer p h cleared.buf in
      let h1 = record h { policy = some p' } in
      let o = (offset_and_flags (record { buf = b' })).0 in
      let offset = if ltb 5 o && ltb (o * 4) (length b) then o else 5 in
      elim steering.retransmit_from [
        | none ↦ (h1, b', offset, steering.new_transmit_limit)
        | some from ↦
            let (tcb, ok) = retransmit_from h1.scb from in
            let buf_tx' = RingTx.retransmit_from h1.buf_tx from in
            if ok
            then (
              record h1 { scb = tcb; buf_tx = buf_tx' },
              b',
              offset,
              steering.new_transmit_limit,
            )
            else (h1, b', offset, steering.new_transmit_limit)
      ]

  unfoldable pub send : Handler P → List ℕ → Ran (Sent P)
  unfolding send_steered pre_tx_call
  send h b = if is_tx_over h then ran (h, b, 0, some net_closed) else elim (new_frame b) [
    | inr e ↦ ran (h, b, 0, some (frame (e ∷ [])))
    | inl tfrm ↦ elim h.policy [
      | none ↦ send_steered h b 5 transmit_unlimited
      | some p ↦ let (h1, b', offset, limit) = pre_tx_call h p b in send_steered h1 b' offset limit
    ]
  ]
