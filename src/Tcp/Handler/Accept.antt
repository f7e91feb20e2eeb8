-- ===== src/Tcp/Handler/Accept.antt =====
-- tcp/handler.go: `Recv`, which takes a frame, and `Read`.
use lneto.Base.{
  ℕ, ◌-◌, ◌*◌, ◌/◌, ◌%◌, ◌^◌, inl, inr, true, false, not, ◌&&◌, Option, none, some, List, [], ◌∷◌,
  ltb, leb, ◌==◌, if◌then◌else◌, u32_mod, length, Ran, ran, panicked,
}
use lneto.Tcp.Segment.{State, closed, ◌is◌, is_closed, rx_data_open, Segment, flag_syn, has_any}
use lneto.Tcp.Control.Block.{ControlBlock, incoming_is_keepalive}
use lneto.Tcp.Control.Incoming.{queue_ack}
use lneto.Validation.{err_pop}
use lneto.Tcp.Frame.{
  Frame, new_frame, source_port, destination_port, payload, segment, validate_except_crc,
}
use lneto.Tcp.Reassembly.{enabled}
use lneto.Tcp.Handler.{
  Error, net_closed, eof, mismatch, buffer_full, frame, scb, ring, Handler, is_tx_over, recv_window,
}
use lneto.Tcp.Handler.Policy.{Policy}
use lneto.Tcp.Handler.Receive.{handle_out_of_order, deliver_reassembled, recv_data}
use lneto.Internal.Ring
use lneto.Tcp.Control.Recv
use lneto.Tcp.Segment

module _ {ℓ} {P : Type ℓ} (steer : Policy P) where
  unfoldable pub post_rx_call : Handler P → State → Frame → Handler P
  post_rx_call h prev_state tfrm = elim h.policy [
    | none ↦ h
    | some p ↦ record h { policy = some (Policy.post_rx steer p h prev_state tfrm.buf) }
  ]

  -- `Recv` with what the control block returned for the segment.
  unfoldable pub recv_admitted :
      Handler P
      → Frame
      → Segment
      → List ℕ
      → Ran (ControlBlock × Option Segment.Error)
      → Ran (Handler P × Option Error)
  unfolding recv_data post_rx_call
  recv_admitted h tfrm seg pl panicked = panicked
  recv_admitted h tfrm seg pl (ran (tcb, some e)) =
      ran (record h { scb = tcb }, some (if tcb.state is closed then net_closed else scb e))
  recv_admitted h tfrm seg pl (ran (tcb, none)) =
      let h1 = record h { scb = tcb } in
      if tcb.state is closed
      then ran (h1, some net_closed)
      else recv_data (post_rx_call h1 h.scb.state tfrm) tfrm seg pl h.scb.snd.una

  -- `Recv` of what the reassembly left to the control block.
  unfoldable pub recv_in_order :
      Handler P → Frame → Segment → List ℕ → Ran (Handler P × Option Error)
  unfolding recv_admitted
  recv_in_order h tfrm seg pl =
      if not h.shutdown_rx && ltb (Ring.free h.buf_rx) (length pl)
      then ran (h, some buffer_full)
      else recv_admitted h tfrm seg pl (Recv.recv h.scb seg)

  -- `Recv` from the out-of-order segments on.
  unfoldable pub recv_kept : Handler P → Frame → Segment → List ℕ → Ran (Handler P × Option Error)
  unfolding handle_out_of_order recv_in_order
  recv_kept h tfrm seg pl =
      let (h1, consumed) = handle_out_of_order h seg pl in
      if not (enabled h.reasm)
      then recv_in_order h tfrm seg pl
      else if consumed
      then ran (h1, none)
      else recv_in_order h1 tfrm seg pl

  -- `Recv` from the segment on, where the window of a segment other than a SYN is scaled.
  unfoldable pub recv_segment :
      Handler P → Frame → List ℕ → Segment → Ran (Handler P × Option Error)
  unfolding recv_kept
  recv_segment h tfrm pl read =
      let seg =
        if h.peer_offered_ws && not (has_any read.flags flag_syn)
        then record read { wnd = read.wnd * 2 ^ h.wnd_shift_peer % u32_mod }
        else read in
      if incoming_is_keepalive h.scb seg then ran (h, none) else elim h.policy [
        | none ↦ recv_kept h tfrm seg pl
        | some p ↦
            let (p', keep) = Policy.pre_rx steer p h tfrm.buf in
            let h' = record h { policy = some p' } in
            if not keep then ran (h', none) else recv_kept h' tfrm seg pl
      ]

  -- `Recv` of a frame with its fixed header.
  unfoldable pub recv_frame : Handler P → Frame → Ran (Handler P × Option Error)
  unfolding recv_segment
  recv_frame h tfrm =
      let (errs, validator') = err_pop (validate_except_crc tfrm h.validator) in
      let h1 = record h { validator = validator' } in
      if not (length errs == 0)
      then ran (h1, some (frame errs))
      else if not (h.remote_port == 0) && not (source_port tfrm == h.remote_port)
      then ran (h1, some mismatch)
      else if not (h.local_port == destination_port tfrm)
      then ran (h1, some mismatch)
      else elim (payload tfrm) [
        | panicked ↦ panicked
        | ran pl ↦ elim (segment tfrm (length pl)) [
          | panicked ↦ panicked
          | ran read ↦ recv_segment h1 tfrm pl read
        ]
      ]

  unfoldable pub recv : Handler P → List ℕ → Ran (Handler P × Option Error)
  unfolding recv_frame
  recv h incoming_packet =
      if is_tx_over h then ran (h, some net_closed) else elim (new_frame incoming_packet) [
        | inr e ↦ ran (h, some (frame (e ∷ [])))
        | inl tfrm ↦ recv_frame h tfrm
      ]

module _ {ℓ} {P : Type ℓ} where
  unfoldable pub maybe_queue_window_update : Handler P → Handler P
  maybe_queue_window_update h =
      let current_free = recv_window h in
      let last_advertised = h.scb.rcv.wnd in
      let half = length h.buf_rx.buf / 2 in
      let mss = h.scb.snd.mss in
      let thresh = if ltb 0 mss && ltb mss half then mss else half in
      if leb current_free last_advertised
      then h
      else if leb thresh (current_free - last_advertised)
      then record h { scb = queue_ack h.scb }
      else h

  -- `Read` once the ring was read: `n` bytes are in `bytes`.
  unfoldable pub read_end : Handler P → List ℕ → Option Error → Handler P × List ℕ × Option Error
  unfolding maybe_queue_window_update
  read_end h bytes err =
      let h1 =
        if ltb 0 (length bytes) then maybe_queue_window_update (deliver_reassembled h) else h in
      if length bytes == 0 && (elim err [ none ↦ true | some e ↦ false ])
      then if is_closed h1.scb.state
        then (h1, bytes, some net_closed)
        else if not (rx_data_open h1.scb.state)
        then (h1, bytes, some eof)
        else (h1, bytes, none)
      else (h1, bytes, err)

  -- `Read` into a slice of `n` bytes.
  unfoldable pub read : Handler P → ℕ → Ran (Handler P × List ℕ × Option Error)
  unfolding read_end
  read h n =
      if h.shutdown_rx
      then ran (h, [], some eof)
      else if Ring.buffered h.buf_rx == 0
      then ran (read_end h [] none)
      else elim (Ring.read h.buf_rx n) [
        | panicked ↦ panicked
        | ran (bytes, some e, rx') ↦
            ran (read_end (record h { buf_rx = rx' }) bytes (some (ring e)))
        | ran (bytes, none, rx') ↦ ran (read_end (record h { buf_rx = rx' }) bytes none)
      ]
