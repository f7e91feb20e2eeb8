-- ===== src/Tcp/Handler/Open.antt =====
-- tcp/handler.go: opening, closing and resetting a Handler. A nil buffer of a ring is the empty
-- list, and a nil argument is `none`.
use lneto.Base.{
  ℕ, ◌+◌, ◌%◌, ◌^◌, true, false, not, ◌&&◌, ◌||◌, Option, none, some, List, ltb, ◌==◌,
  if◌then◌else◌, length,
}
use lneto.Tcp.Value.{Value, Size}
use lneto.Tcp.Segment.{closed, time_wait, ◌is◌, is_closed}
use lneto.Tcp.Control.Block.{ControlBlock, abort, open_block}
use lneto.Internal.Ring.{Ring}
use lneto.Tcp.RingTx.{reset_or_reuse}
use lneto.Tcp.Handler.{
  Error, net_closed, short_buffer, invalid_config, zero_destination, zero_source,
  connection_closing, need_closed_tcb_to_open, scb, tx, Handler, wnd_shift_for,
}
use lneto.Tcp.Handler.Policy.{Policy}
use lneto.Internal.Ring
use lneto.Tcp.Reassembly

-- `minBufferSize` of tcp/txqueue.go and `maxReasmSegments` of tcp/reassembly.go
abbrev pub min_buffer_size : ℕ
min_buffer_size = 2

abbrev pub max_reasm_segments : ℕ
max_reasm_segments = 8

-- `SetRecvWindow` of the control block
unfoldable pub set_recv_window : ControlBlock → Size → ControlBlock
set_recv_window tcb wnd = record tcb { rcv = record (tcb.rcv) { wnd = wnd } }

size_of : Option (List ℕ) → ℕ
size_of none = 0
size_of (some buf) = length buf

module _ {ℓ} {P : Type ℓ} where
  unfoldable pub set_buffers :
      Handler P → Option (List ℕ) → Option (List ℕ) → ℕ → Handler P × Option Error
  unfolding reset_or_reuse set_recv_window size_of
  set_buffers h txbuf rxbuf packets =
      let buf : List ℕ = elim rxbuf [ none ↦ h.buf_rx.buf | some b ↦ b ] in
      let rx = Ring.reset (record (h.buf_rx) { buf = buf }) in
      let (tx', err) = reset_or_reuse h.buf_tx txbuf packets 0 in
      if length h.buf_rx.buf == 0
        && (ltb (size_of rxbuf) min_buffer_size || ltb (size_of txbuf) min_buffer_size)
      then (h, some short_buffer)
      else if not (is_closed h.scb.state)
      then (h, some invalid_config)
      else (
        record h {
          buf_rx = rx;
          scb = set_recv_window h.scb (length buf);
          wnd_shift_local = wnd_shift_for (length buf);
          reasm = Reassembly.reset h.reasm max_reasm_segments;
          buf_tx = tx';
        },
        elim err [ none ↦ none | some e ↦ some (tx e) ],
      )

  unfoldable pub shutdown_read : Handler P → Handler P
  shutdown_read h = record h { shutdown_rx = true }

  unfoldable pub close : Handler P → Handler P × Option Error
  close h =
      if h.closing
      then (h, some connection_closing)
      else if is_closed h.scb.state
      then (h, some net_closed)
      else (record h { closing = true }, none)

module _ {ℓ} {P : Type ℓ} (steer : Policy P) where
  -- All but the control block, the configuration and the memory goes back to zero.
  unfoldable pub reset : Handler P → ℕ → ℕ → Value → Handler P
  unfolding reset_or_reuse
  reset h local_port remote_port iss = record h {
    connid = (h.connid + 1) % 2 ^ 64;
    local_port = local_port;
    remote_port = remote_port;
    closing = false;
    shutdown_rx = false;
    requeue_control = false;
    wnd_shift_peer = 0;
    peer_offered_ws = false;
    policy = elim h.policy [ none ↦ none | some p ↦ some (Policy.reset steer p) ];
    reasm = Reassembly.clear h.reasm;
    buf_tx = (reset_or_reuse h.buf_tx none 0 iss).0;
    buf_rx = Ring.reset h.buf_rx;
  }

  unfoldable pub open_active : Handler P → ℕ → ℕ → Value → Handler P × Option Error
  unfolding reset set_recv_window
  open_active h local_port remote_port iss =
      if remote_port == 0
      then (h, some zero_destination)
      else if ltb (length h.buf_rx.buf) min_buffer_size
          || ltb (length h.buf_tx.rawbuf) min_buffer_size
      then (h, some short_buffer)
      else if not (h.scb.state is closed) && not (h.scb.state is time_wait)
      then (h, some need_closed_tcb_to_open)
      else let h1 = reset (record h { scb = abort h.scb }) local_port remote_port iss in
        (record h1 { scb = set_recv_window h1.scb (length h1.buf_rx.buf) }, none)

  unfoldable pub open_listen : Handler P → ℕ → Value → Handler P × Option Error
  unfolding reset
  open_listen h local_port iss =
      let (tcb, err) = open_block h.scb iss (length h.buf_rx.buf) in
      if local_port == 0
      then (h, some zero_source)
      else if ltb (length h.buf_rx.buf) min_buffer_size
          || ltb (length h.buf_tx.rawbuf) min_buffer_size
      then (h, some short_buffer)
      else elim err [
        | some e ↦ (record h { scb = tcb }, some (scb e))
        | none ↦ (reset (record h { scb = tcb }) local_port 0 iss, none)
      ]

  unfoldable pub abort_handler : Handler P → Handler P
  unfolding reset
  abort_handler h = reset (record h { scb = abort h.scb }) 0 0 0
