-- ===== src/LossyFdAdapter.antt =====
-- tcp_helpers/lossy_fd_adapter.hh: an adapter that drops some of what passes. The random generator of
-- the standard library is a parameter: its state, and the number and the state that a call gives.
use cs144_introduction_to_co.Prelude.{
  ℕ, ◌%◌, ◌^◌, Bool, true, false, Option, none, ltb, ◌==◌, if◌then◌else◌,
}
use cs144_introduction_to_co.TcpSegment.{TcpSegment}
pub mod Laws

pub record LossyFdAdapter (S A : Type 0) : Type 0 where
  pub state : S
  pub adapter : A
  pub loss_rate_dn : ℕ
  pub loss_rate_up : ℕ

module _ {S A : Type 0} (rand : S → ℕ × S) where
  -- No number is drawn where the loss is zero.
  unfoldable pub should_drop : LossyFdAdapter S A → Bool → Bool × LossyFdAdapter S A
  should_drop l uplink =
      let loss = if uplink then l.loss_rate_up else l.loss_rate_dn in
      let (number, state) = rand l.state in
      if loss == 0 then (false, l) else (ltb (number % 2 ^ 16) loss, record l { state = state })

  -- `received` is what the adapter reads.
  unfoldable pub read :
      (A → Option TcpSegment × A) → LossyFdAdapter S A → Option TcpSegment × LossyFdAdapter S A
  read adapter_read l =
      let (received, adapter) = adapter_read l.adapter in
      let (dropped, after) = should_drop (record l { adapter = adapter }) false in
      if dropped then (none, after) else (received, after)

  unfoldable pub write : (A → TcpSegment → A) → LossyFdAdapter S A → TcpSegment → LossyFdAdapter S A
  write adapter_write l seg =
      let (dropped, after) = should_drop l true in
      if dropped then after else record after { adapter = adapter_write after.adapter seg }
