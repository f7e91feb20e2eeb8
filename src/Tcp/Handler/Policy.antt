-- ===== src/Tcp/Handler/Policy.antt =====
-- tcp/policy.go: the interface of a transmission policy, over the state that it keeps. A method
-- that is given a frame may write to it: what it returns is the frame's buffer after the call.
use lneto.Base.{ℕ, ◌-◌, ◌^◌, Bool, Option, List}
use lneto.Tcp.Value.{Value, Size}
use lneto.Tcp.Segment.{State}
use lneto.Tcp.Handler.{Handler}

-- `TransmitUnlimited`
abbrev pub transmit_unlimited : Size
transmit_unlimited = 2 ^ 32 - 1

-- What `PreTx` returns: the limit on new data, and where to retransmit from if it asks for that.
pub record Steering : Type 0 where
  pub new_transmit_limit : Size
  pub retransmit_from : Option Value

pub record Policy {ℓ} (P : Type ℓ) : Type ℓ where
  pub reset : P → P
  pub pre_tx : P → Handler P → List ℕ → P × List ℕ × Steering
  pub post_tx : P → Handler P → List ℕ → P × List ℕ
  pub pre_rx : P → Handler P → List ℕ → P × Bool
  pub post_rx : P → Handler P → State → List ℕ → P
