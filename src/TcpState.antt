-- ===== src/TcpState.antt =====
-- tcp_helpers/tcp_state.hh and tcp_state.cc: the summary of a connection's state. The texts that name
-- the summaries are the constructors of two enumerations.
use cs144_introduction_to_co.Prelude.{
  Bool, true, false, not, ◌&&◌, ltb, ◌==◌, if◌then◌else◌, has_value,
}
use cs144_introduction_to_co.Prelude.Words.{add64}
use cs144_introduction_to_co.ByteStream
use cs144_introduction_to_co.TcpReceiver.{TcpReceiver, get_ackno, stream_out}
use cs144_introduction_to_co.TcpSender.{TcpSender}

-- `TCPReceiverStateSummary`.
pub data ReceiverSummary : Type 0 where
  error listen syn_recv fin_recv : ReceiverSummary

-- `TCPSenderStateSummary`.
pub data SenderSummary : Type 0 where
  error closed syn_sent syn_acked fin_sent fin_acked : SenderSummary

-- `TCPState::State`, the official names.
pub data State : Type 0 where
  listen syn_rcvd syn_sent established close_wait last_ack : State
  fin_wait_1 fin_wait_2 closing time_wait closed reset : State

pub record TcpState : Type 0 where
  pub sender : SenderSummary
  pub receiver : ReceiverSummary
  pub active : Bool
  pub linger_after_streams_finish : Bool

unfoldable pub receiver_summary : TcpReceiver → ReceiverSummary
receiver_summary r =
    if (stream_out r).error
    then ReceiverSummary.error
    else if not (has_value (get_ackno r))
    then ReceiverSummary.listen
    else if ByteStream.input_ended (stream_out r)
    then ReceiverSummary.fin_recv
    else ReceiverSummary.syn_recv

unfoldable pub sender_summary : TcpSender → SenderSummary
sender_summary s =
    if s.stream.error
    then SenderSummary.error
    else if s.next_seqno == 0
    then SenderSummary.closed
    else if s.next_seqno == s.bytes_in_flight
    then SenderSummary.syn_sent
    else if not (ByteStream.eof s.stream)
    then SenderSummary.syn_acked
    else if ltb s.next_seqno (add64 (ByteStream.bytes_written s.stream) 2)
    then SenderSummary.syn_acked
    else if ltb 0 s.bytes_in_flight
    then SenderSummary.fin_sent
    else SenderSummary.fin_acked

unfoldable pub summarize : TcpSender → TcpReceiver → Bool → Bool → TcpState
summarize s r active linger = record {
  sender = sender_summary s;
  receiver = receiver_summary r;
  active = active;
  linger_after_streams_finish = if active then linger else false;
}

abbrev of_parts : SenderSummary → ReceiverSummary → Bool → Bool → TcpState
of_parts s r active linger = record {
  sender = s;
  receiver = r;
  active = active;
  linger_after_streams_finish = linger;
}

-- `TCPState(const TCPState::State)`.
unfoldable pub official : State → TcpState
official State.listen = of_parts SenderSummary.closed ReceiverSummary.listen true true
official State.syn_rcvd = of_parts SenderSummary.syn_sent ReceiverSummary.syn_recv true true
official State.syn_sent = of_parts SenderSummary.syn_sent ReceiverSummary.listen true true
official State.established = of_parts SenderSummary.syn_acked ReceiverSummary.syn_recv true true
official State.close_wait = of_parts SenderSummary.syn_acked ReceiverSummary.fin_recv true false
official State.last_ack = of_parts SenderSummary.fin_sent ReceiverSummary.fin_recv true false
official State.closing = of_parts SenderSummary.fin_sent ReceiverSummary.fin_recv true true
official State.fin_wait_1 = of_parts SenderSummary.fin_sent ReceiverSummary.syn_recv true true
official State.fin_wait_2 = of_parts SenderSummary.fin_acked ReceiverSummary.syn_recv true true
official State.time_wait = of_parts SenderSummary.fin_acked ReceiverSummary.fin_recv true true
official State.reset = of_parts SenderSummary.error ReceiverSummary.error false false
official State.closed = of_parts SenderSummary.fin_acked ReceiverSummary.fin_recv false false

-- `==` of the texts of two summaries.
abbrev same_receiver : ReceiverSummary → ReceiverSummary → Bool
same_receiver ReceiverSummary.error ReceiverSummary.error = true
same_receiver ReceiverSummary.listen ReceiverSummary.listen = true
same_receiver ReceiverSummary.syn_recv ReceiverSummary.syn_recv = true
same_receiver ReceiverSummary.fin_recv ReceiverSummary.fin_recv = true
same_receiver _ _ = false

abbrev same_sender : SenderSummary → SenderSummary → Bool
same_sender SenderSummary.error SenderSummary.error = true
same_sender SenderSummary.closed SenderSummary.closed = true
same_sender SenderSummary.syn_sent SenderSummary.syn_sent = true
same_sender SenderSummary.syn_acked SenderSummary.syn_acked = true
same_sender SenderSummary.fin_sent SenderSummary.fin_sent = true
same_sender SenderSummary.fin_acked SenderSummary.fin_acked = true
same_sender _ _ = false

abbrev equal_flags : Bool → Bool → Bool
equal_flags true b = b
equal_flags false b = not b

-- `==` of two states.
unfoldable pub same_state : TcpState → TcpState → Bool
same_state a b =
    equal_flags a.active b.active
    && equal_flags a.linger_after_streams_finish b.linger_after_streams_finish
    && same_sender a.sender b.sender
    && same_receiver a.receiver b.receiver
