-- ===== src/SystemCall.antt =====
-- util/util.hh and util/util.cc: system calls, and the exceptions that a call of them ends in.
use cs144_introduction_to_co.Prelude.{ℕ, List, Option}
use cs144_introduction_to_co.TcpOverIp.{Endpoint}

-- `unix_error` with its errno, and the other exceptions that the sources throw.
pub data Exception : Type 0 where
  unix_error : ℕ → Exception
  runtime_error : Exception

pub data Attempt (A : Type 0) : Type 0 where
  ok : A → Attempt A
  raised : Exception → Attempt A

-- What the kernel answers: the result of the call, or the errno of a failure.
pub data Answer (A : Type 0) : Type 0 where
  returned : A → Answer A
  failed : ℕ → Answer A

-- `SystemCall` with its default mask: no failure has the errno 0.
unfoldable pub system_call : {A : Type 0} → Answer A → Attempt A
system_call (Answer.returned a) = Attempt.ok a
system_call (Answer.failed errno) = Attempt.raised (Exception.unix_error errno)

-- How a socket is shut down.
pub data How : Type 0 where
  shut_rd shut_wr shut_rdwr : How

-- The kernel, whose state is `W`: each call takes the number of a descriptor. `read` is asked for at
-- most so many bytes, `writev` tells how many it took; `recvfrom` gives the sender and, with MSG_TRUNC,
-- the whole length of a datagram, whose bytes are given here; `sendmsg` has no address on a connected
-- socket; `accept` gives the number of a new descriptor, and `getsockopt` the domain and the type.
pub record Kernel (W : Type 0) : Type 0 where
  pub read : W → ℕ → ℕ → W × Answer (List ℕ)
  pub writev : W → ℕ → List ℕ → W × Answer ℕ
  pub close : W → ℕ → W × Answer Unit
  pub shutdown : W → ℕ → How → W × Answer Unit
  pub recvfrom : W → ℕ → ℕ → W × Answer (Endpoint × List ℕ)
  pub sendmsg : W → ℕ → Option Endpoint → List ℕ → W × Answer ℕ
  pub socket_domain : W → ℕ → Answer ℕ
  pub socket_type : W → ℕ → Answer ℕ
  pub accept : W → ℕ → W × Answer ℕ
