-- ===== src/LossyFdAdapter/Laws.antt =====
-- lossy_fd_adapter.hh: what the loss rates mean.
use cs144_introduction_to_co.Prelude.{ℕ, ◌≡◌, refl, arith, true, Option, ◌==◌}
use cs144_introduction_to_co.TcpSegment.{TcpSegment}
use cs144_introduction_to_co.LossyFdAdapter.{LossyFdAdapter, should_drop, read, write}

module _ {S A : Type 0} (rand : S → ℕ × S) where
  -- With both rates 0 the adapter does what the one that it wraps does: it hands on what that reads, and
  -- gives it what is written, and draws no number.
  lossless :
      (l : LossyFdAdapter S A) (adapter_read : A → Option TcpSegment × A)
      (adapter_write : A → TcpSegment → A) (seg : TcpSegment)
      → l.loss_rate_dn ≡ 0
      → l.loss_rate_up ≡ 0
      → (read rand adapter_read l
          ≡ ((adapter_read l.adapter).0, record l { adapter = (adapter_read l.adapter).1 }))
        × (write rand adapter_write l seg ≡ record l { adapter = adapter_write l.adapter seg })
  unfolding read write should_drop
  lossless l adapter_read adapter_write seg dn up =
      let a : (l.loss_rate_dn == 0) ≡ true = ground arith in
      let b : (l.loss_rate_up == 0) ≡ true = ground arith in (rw a refl, rw b refl)
