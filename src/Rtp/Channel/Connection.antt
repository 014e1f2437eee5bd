-- ===== src/Rtp/Channel/Connection.antt =====
-- A whole connection: `initReceiver` and `initSender`, the loops of `recvMessage` and `sendMessage`,
-- and what closes the two sockets.
use networking_labs.Prelude.{
  ℕ, ◌+◌, ◌^◌, ◌<◌, ◌≡◌, refl, List, [], ◌∷◌, ◌++◌, Option, some, Bool, true, false, length,
}
use networking_labs.Prelude.Int.{ℤ, pos, ltb_ℤ}
use networking_labs.Rtp.Packet.{RtpPacket, wire, header_size}
use networking_labs.Rtp.Wire.{send_rtp}
use networking_labs.Rtp.Receiver.{ack, recv_message}
use networking_labs.Rtp.Sender.{con_end, send_message}
use networking_labs.Rtp.Sender.Clock.{TimeVal}
use networking_labs.Rtp.Connect.{
  Endpoint, returns, send, init_receiver, init_sender, start_seq, terminate_sender,
  terminate_receiver,
}
use networking_labs.Rtp.Connect
use networking_labs.Rtp.Connect.Handshake.{
  receive-wire, ack-IsPacket, start_seq-lt, init_receiver-start, init_sender-ack,
}
use networking_labs.Rtp.Channel.{System, Reach, start, here}
use networking_labs.Rtp.Channel.GoBackN.{send_message_ends}

-- After END and its ACK the socket is closed and END has been sent.
terminate_sender-ack :
    (code : ℤ) (end : RtpPacket) (s : Endpoint) (seq : ℕ)
    → (s' : Endpoint) × (terminate_sender code end s (some (wire (ack seq))) ≡ returns code s')
      × (s'.is_open ≡ false)
      × (s'.sent ≡ (send end s).sent)
unfolding terminate_sender
terminate_sender-ack code end s seq =
    (_, receive-wire (send end s) (ack seq) _ (ack-IsPacket seq), refl, refl)

-- Both sockets are opened, the file goes over the channel, and both sockets are closed.
pub record IsDelivered (message : List ℕ) (acked : List Bool) (sent_from : TimeVal) (now : ℕ)
    (a' b' : Endpoint) : Type 0 where
  pub same_window : a'.window_size ≡ b'.window_size
  pub open_receiver : a'.is_open ≡ true
  pub open_sender : b'.is_open ≡ true
  pub last : System
  pub run : Reach send_message recv_message (start b'.window_size message acked sent_from now) last
  pub done : last.done ≡ true
  pub closed : last.closed ≡ true
  pub written : last.receiver.file ≡ message
  pub ended :
      (b'' : Endpoint) × (terminate_sender
          (pos 0)
          (con_end last.sender)
          b'
          (some (wire (ack (con_end last.sender).rtp.seq_num)))
        ≡ returns (pos 0) b'')
      × (b''.is_open ≡ false)
      × (b''.sent ≡ (send (con_end last.sender) b').sent)
  pub closed_receiver : (terminate_receiver a').is_open ≡ false

-- From any two endpoints, where the sockets work and START and its ACK arrive whole, initReceiver
-- and initSender return 0 with both sockets open, the same window, and exactly that ACK and that
-- START sent; with this window recvMessage and sendMessage have a run in which both leave their
-- loops and the receiver has written exactly the file; terminateSender, which hears the ACK of
-- END, has then sent END and returns with the socket closed, as terminateReceiver does; for a
-- window of 1 to 2^31 - 1 packets and a file whose bytes and the window together stay below 2^32.
pub connection_delivers :
    (message : List ℕ) (w : ℕ) (acked : List Bool) (sent_from : TimeVal) (now r1 r2 : ℕ) (ret : ℤ)
    (a b : Endpoint) (later : Option (List ℕ))
    → 0 < w
    → w < 2 ^ 31
    → length message + w < 2 ^ 32
    → ltb_ℤ ret (pos header_size) ≡ false
    → (a' : Endpoint) × (b' : Endpoint) × (init_receiver true true w a
          (some (wire (networking_labs.Rtp.Connect.start (start_seq r1 r2))))
        ≡ returns (pos 0) a')
      × (init_sender true w r1 r2 ret b (some (wire (ack (start_seq r1 r2)))) later
          ≡ returns (pos 0) b')
      × (a'.sent ≡ a.sent ++ wire (ack (start_seq r1 r2)) ∷ [])
      × (b'.sent ≡ b.sent ++ wire (networking_labs.Rtp.Connect.start (start_seq r1 r2)) ∷ [])
      × IsDelivered message acked sent_from now a' b'
unfolding terminate_receiver send_rtp
connection_delivers message w acked sent_from now r1 r2 ret a b later positive narrow small taken =
    let (t, run, done, closed, written) =
      send_message_ends message w acked sent_from now positive narrow small _ here refl in
    (
      _,
      _,
      init_receiver-start a w (start_seq r1 r2) (start_seq-lt r1 r2),
      init_sender-ack b w r1 r2 ret later taken,
      refl,
      refl,
      record {
        same_window = refl;
        open_receiver = refl;
        open_sender = refl;
        last = t;
        run = run;
        done = done;
        closed = closed;
        written = written;
        ended = terminate_sender-ack (pos 0) (con_end t.sender) _ (con_end t.sender).rtp.seq_num;
        closed_receiver = refl;
      },
    )
