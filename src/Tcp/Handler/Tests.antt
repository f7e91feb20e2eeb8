-- ===== src/Tcp/Handler/Tests.antt =====
-- tcp/handler.go at concrete inputs: a connection that holds three bytes ahead of a gap of four, at
-- the sequence number 1000 of the peer, whose stream has the last byte of each number at its place.
use lneto.Base.{
  ℕ, ◌+◌, ◌*◌, ◌/◌, ◌%◌, ◌^◌, ◌≤◌, ◌<◌, ◌≡◌, refl, true, false, Option, none, some, [], ◌∷◌, arith,
  replicate, rotate, ran,
}
use lneto.Tcp.Value.{Value, add, sizeof}
use lneto.Tcp.Segment.{Segment, established, flag_ack, has_any, max_wnd_shift}
use lneto.Tcp.Control.Block.{ControlBlock, zero_block}
use lneto.Internal.Ring.{Ring, size, free, write_start}
use lneto.Internal.Ring.Line.{line}
use lneto.Tcp.Reassembly.Stream.{bytes, Chain}
use lneto.Tcp.Frame.{Frame}
use lneto.Tcp.Handler.{Error, Handler, wire_wnd, wnd_shift_for}
use lneto.Tcp.Handler.Policy.{Policy, transmit_unlimited}
use lneto.Tcp.Handler.Accept.{recv_kept}
use lneto.Tcp.Handler.OutOfOrder.{InStep}
use lneto.Tcp.Handler.Outcome.{Delivered}
use lneto.Tcp.Handler.Delivery.{recv_kept-Delivered}
use lneto.Tcp.Handler.Window.{wnd_shift_for_lem, wire_wnd_lem}

-- A policy that counts the segments that were accepted.
abbrev counting : Policy ℕ
counting = record {
  reset = λ p. 0;
  pre_tx =
      λ p h b. (p, b, record { new_transmit_limit = transmit_unlimited; retransmit_from = none });
  post_tx = λ p h b. (p, b);
  pre_rx = λ p h b. (p, true);
  post_rx = λ p h s b. p + 1;
}

abbrev rx : Ring
rx = record { buf = 0 ∷ 0 ∷ 236 ∷ 237 ∷ 238 ∷ replicate 11 0; off = 14; stop = 0 }

abbrev block : ControlBlock
block = record zero_block {
  state = established;
  snd = record { iss = 300; una = 301; nxt = 301; wnd = 1000; mss = 0; wl1 = 0; wl2 = 0 };
  rcv = record { irs = 999; nxt = 1000; wnd = 16 };
}

abbrev handler : Handler ℕ
handler = record {
  connid = 1;
  scb = block;
  buf_tx = record {
    rawbuf = replicate 16 0;
    unsentoff = 0;
    unsentend = 0;
    sentoff = 0;
    sentend = 0;
    slist = record { pkts = []; capacity = 4; ssn = 301 };
    iss = 300;
  };
  buf_rx = rx;
  validator = record { accum = []; allow_multi_errors = false };
  local_port = 80;
  remote_port = 4000;
  wnd_shift_local = 2;
  wnd_shift_peer = 0;
  peer_offered_ws = true;
  reasm = record { held = record { seq = 1004; n = 3 } ∷ []; capacity = 8 };
  policy = some 0;
  closing = false;
  shutdown_rx = false;
  requeue_control = false;
}

abbrev low_byte : Value → ℕ
low_byte v = v % 256

handler-InStep : InStep low_byte 1000 handler.buf_rx handler.reasm
unfolding Chain sizeof line write_start size rotate bytes free add
handler-InStep = record {
  nxt_in = omega arith;
  valid = record { off_in = omega arith; stop_in = omega arith };
  small = omega arith;
  holds = (
    record {
      seq_in = omega arith;
      above = omega arith;
      some_bytes = omega arith;
      staged = λ q. refl;
    },
    omega arith,
  );
}

abbrev gap : Segment
gap = record { seq = 1000; ack = 301; datalen = 4; wnd = 1000; flags = flag_ack }

abbrev no_frame : Frame
no_frame = record { buf = replicate 24 0 }

recv_kept-Delivered_example :
    (h' : Handler ℕ) × (err : Option Error) × (recv_kept counting handler no_frame gap
        (bytes low_byte 1000 4)
      ≡ ran (h', err))
    × Delivered low_byte handler gap 4 h' err
unfolding has_any
recv_kept-Delivered_example =
    recv_kept-Delivered counting low_byte handler no_frame gap 4 handler-InStep refl refl
      (record { data_len = refl; some_data = omega arith; no_control = refl; seq_in = omega arith })

wnd_shift_for_lem_example :
    (200000 / 2 ^ wnd_shift_for 200000 ≤ 0xffff)
    × (wnd_shift_for 200000 ≤ max_wnd_shift)
    × ((t : ℕ) → t < wnd_shift_for 200000 → 0xffff < 200000 / 2 ^ t)
wnd_shift_for_lem_example = wnd_shift_for_lem 200000 (omega arith)

wire_wnd_lem_example :
    (wire_wnd handler (record gap { wnd = 199999 }) ≤ 0xffff)
    × (wire_wnd handler (record gap { wnd = 199999 }) * 2 ^ 2 ≤ 199999)
    × (199999 < wire_wnd handler (record gap { wnd = 199999 }) * 2 ^ 2 + 2 ^ 2)
unfolding has_any wnd_shift_for
wire_wnd_lem_example =
    wire_wnd_lem handler (record gap { wnd = 199999 }) 200000 refl refl refl (omega arith)
      (omega arith)
