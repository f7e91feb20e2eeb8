-- ===== src/Tcp/Segment.antt =====
-- tcp/definitions.go: errors, flags, connection states and segments; maxWindow of tcp/handler.go.
use lneto.Base.{
  ℕ, ◌*◌, ◌/◌, ◌^◌, Bool, ◌&&◌, ◌||◌, not, ltb, leb, ◌==◌, if◌then◌else◌, bit_and, bit_or, add32,
  sub32,
}
use lneto.Tcp.Value.{Value, Size, add}

-- The error values that this part of the package returns; `closed_pipe` is io.ErrClosedPipe and
-- `net_closed` is net.ErrClosed.
pub data Error : Type 0 where
  drop_segment window_too_large need_closed_tcb_to_open invalid_state conn_not_exist : Error
  connection_closing expected_syn bad_segack finwait_expected_ack : Error
  window_overflow seq_not_in_window zero_window last_not_in_window : Error
  require_sequential ack_not_next closed_pipe net_closed : Error

-- `type Flags uint16`
abbrev pub Flags : Type 0
Flags = ℕ

abbrev pub flag_fin : Flags
flag_fin = 1

abbrev pub flag_syn : Flags
flag_syn = 2

abbrev pub flag_rst : Flags
flag_rst = 4

abbrev pub flag_psh : Flags
flag_psh = 8

abbrev pub flag_ack : Flags
flag_ack = 16

abbrev pub flag_mask : Flags
flag_mask = 0x01ff

abbrev pub synack : Flags
synack = bit_or flag_syn flag_ack

abbrev pub finack : Flags
finack = bit_or flag_fin flag_ack

abbrev pub flagctl : Flags
flagctl = bit_or (bit_or flag_syn flag_fin) flag_rst

unfoldable pub has_all : Flags → Flags → Bool
has_all flags mask = bit_and flags mask == mask

unfoldable pub has_any : Flags → Flags → Bool
has_any flags mask = not (bit_and flags mask == 0)

unfoldable pub mask_flags : Flags → Flags
mask_flags flags = bit_and flags flag_mask

unfoldable pub is_invalid : Flags → Bool
is_invalid flags = not (bit_and flags flag_mask == flags)

-- `type State uint8`, in the order of its constants.
pub data State : Type 0 where
  closed listen syn_rcvd syn_sent established fin_wait1 fin_wait2 closing : State
  time_wait close_wait last_ack : State

-- The value of the constant.
abbrev pub state_code : State → ℕ
state_code closed = 0
state_code listen = 1
state_code syn_rcvd = 2
state_code syn_sent = 3
state_code established = 4
state_code fin_wait1 = 5
state_code fin_wait2 = 6
state_code closing = 7
state_code time_wait = 8
state_code close_wait = 9
state_code last_ack = 10

-- `s == t` on states
infix 50 ◌is◌
abbrev pub ◌is◌ : State → State → Bool
s is t = state_code s == state_code t

unfoldable pub is_preestablished : State → Bool
is_preestablished s = s is syn_rcvd || s is syn_sent || s is listen

unfoldable pub is_closing : State → Bool
is_closing s = s is fin_wait1 || s is fin_wait2 || s is closing || s is last_ack || s is close_wait

unfoldable pub is_closed : State → Bool
is_closed s = s is closed || s is time_wait

unfoldable pub is_synchronized : State → Bool
unfolding is_closed
is_synchronized s = leb (state_code established) (state_code s) && not (is_closed s)

unfoldable pub tx_data_open : State → Bool
tx_data_open s = s is established || s is close_wait

unfoldable pub tx_queued_data_open : State → Bool
unfolding tx_data_open
tx_queued_data_open s = tx_data_open s || s is fin_wait1 || s is closing || s is last_ack

unfoldable pub rx_data_open : State → Bool
rx_data_open s = s is established || s is fin_wait1 || s is fin_wait2

unfoldable pub is_open : State → Bool
unfolding is_closing
is_open s = not (is_closing s)

unfoldable pub has_irs : State → Bool
unfolding is_open
has_irs s = is_open s && not (s is syn_sent) && not (s is listen)

pub record Segment : Type 0 where
  pub seq : Value
  pub ack : Value
  pub datalen : Size
  pub wnd : Size
  pub flags : Flags

-- `seg.LEN()`
unfoldable pub seg_len : Segment → Size
seg_len seg =
    add32 seg.datalen (add32 (bit_and (seg.flags / 2 ^ 0) 1) (bit_and (seg.flags / 2 ^ 1) 1))

-- `seg.Last()`
unfoldable pub seg_last : Segment → Value
seg_last seg =
    let seglen = seg_len seg in if seglen == 0 then seg.seq else sub32 (add seg.seq seglen) 1

unfoldable pub is_first_syn : Segment → Bool
is_first_syn seg = seg.flags == flag_syn && seg.ack == 0 && seg.datalen == 0 && ltb 0 seg.wnd

-- `ClientSynSegment`
unfoldable pub client_syn_segment : Value → Size → Segment
client_syn_segment client_iss client_wnd = record {
  seq = client_iss;
  ack = 0;
  datalen = 0;
  wnd = client_wnd;
  flags = flag_syn;
}

-- `maxWndShift` and `maxWindow`
abbrev pub max_wnd_shift : ℕ
max_wnd_shift = 14

abbrev pub max_window : Size
max_window = 0xffff * 2 ^ max_wnd_shift
